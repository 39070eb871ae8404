-- ===== src/Encoding/Topic/Levels.antt =====
-- `splitTopicLevels` is `strings.Split`.
use goqtt.Base.{
  ℕ, zero, suc, ◌+◌, ◌-◌, List, [], ◌∷◌, ◌++◌, ◌≡◌, ◌≢◌, refl, sym, ap, ◌∙◌, arith, ◌==◌, length,
  length-append, append_assoc, append-nil, Bytes, Bool-cases, inl, inr,
}
use goqtt.Encoding.Topic.{levels_loop, split_topic_levels}
use goqtt.Er.{ok}
use goqtt.Slice.{slice, slice-At, At-front}
use goqtt.Text.Split.{split, put_front, put_front-append}
use goqtt.Text.Utf8.{decode_rune, decode_rune_ascii, range_from, Skips}

module _ (topic : Bytes) where
  -- The loop stands at byte `i`, in the level that begins at `start` with the bytes `cur`.
  record Stands (done cur rest : Bytes) (start i : ℕ) : Type 0 where
    whole : topic ≡ done ++ (cur ++ rest)
    start_at : start ≡ length done
    i_at : i ≡ start + length cur

  slice_level :
      {done cur rest : Bytes} {start i : ℕ}
      → Stands done cur rest start i
      → slice topic start i ≡ ok cur
  slice_level {done} {cur} {rest} at =
      rw (at.i_at, at.start_at, at.whole)
        (slice-At _ cur rest (length done) (length cur) refl (At-front done (cur ++ rest)))

  Stands-next :
      {done cur rest : Bytes} {start i : ℕ} (b : ℕ)
      → Stands done cur (b ∷ rest) start i
      → Stands done (cur ++ b ∷ []) rest start (i + 1)
  Stands-next {done} {cur} {rest} b at = record {
    whole = at.whole ∙ ap (λ (t : Bytes). done ++ t) (sym (append_assoc cur (b ∷ []) rest));
    start_at = at.start_at;
    i_at = omega (arith, at.i_at, length-append cur (b ∷ []));
  }

  Stands-level :
      {done cur rest : Bytes} {start i : ℕ} (b : ℕ)
      → Stands done cur (b ∷ rest) start i
      → Stands (done ++ (cur ++ b ∷ [])) [] rest (i + 1) (i + 1)
  Stands-level {done} {cur} {rest} b at = record {
    whole = (Stands-next b at).whole ∙ sym (append_assoc done (cur ++ b ∷ []) rest);
    start_at = omega (
      arith,
      at.i_at,
      at.start_at,
      length-append cur (b ∷ []),
      length-append done (cur ++ b ∷ []),
    );
    i_at = omega arith;
  }

put_front-nil : (xs : List Bytes) → xs ≢ [] → put_front [] xs ≡ xs
put_front-nil [] h = absurd (h refl)
put_front-nil (x ∷ xs) h = refl

split-ne-nil : (s : Bytes) → split s ≢ []
unfolding split
split-ne-nil [] = λ e. cc
split-ne-nil (b ∷ bs) = elim (Bool-cases (b == b'/')) [
  | inl slash ↦ rw slash (λ e. cc)
  | inr other ↦ rw other (put_front-ne-nil (b ∷ []) (split bs))
]
  where
    put_front-ne-nil : (c : Bytes) (xs : List Bytes) → put_front c xs ≢ []
    put_front-ne-nil c [] = λ e. cc
    put_front-ne-nil c (x ∷ xs) = λ e. cc

Stands-end :
    (topic done cur : Bytes) (start i : ℕ)
    → Stands topic done cur [] start i
    → slice topic start (length topic) ≡ ok cur
Stands-end topic done cur start i at =
    let e : i ≡ length topic = omega (
      arith,
      at.i_at,
      at.start_at,
      ap length at.whole,
      length-append done (cur ++ []),
      length-append cur [],
    ) in
    rw e at (slice_level topic at)

levels_loop-split :
    (topic done cur rest : Bytes) (levels : List Bytes) (skip start i : ℕ)
    → Stands topic done cur rest start i
    → Skips skip rest
    → levels_loop topic levels start (range_from skip i rest)
      ≡ ok (levels ++ put_front cur (split rest))
unfolding levels_loop range_from split
levels_loop-split topic done cur [] levels skip start i at k =
    rw (Stands-end topic done cur start i at, append-nil)
levels_loop-split topic done cur (b ∷ bs) levels zero start i at k = elim (Bool-cases (b == b'/')) [
  | inl slash ↦ ground (
    arith,
    (decode_rune_ascii b bs).0,
    slice_level topic at,
    levels_loop-split topic _ [] bs (levels ++ cur ∷ []) zero (i + 1) (i + 1)
        (Stands-level topic b at) tt,
    put_front-nil (split bs) (split-ne-nil bs),
    append_assoc levels (cur ∷ []) (split bs),
    append-nil cur,
  )
  | inr other ↦ ground (
    arith,
    decode_rune_ascii b bs,
    levels_loop-split topic done (cur ++ b ∷ []) bs levels ((decode_rune b bs).1 - 1) start (i + 1)
        (Stands-next topic b at) (decode_rune_ascii b bs).2,
    put_front-append cur (b ∷ []) (split bs),
  )
]
levels_loop-split topic done cur (b ∷ bs) levels (suc skip) start i at (h, k) = ground (
  arith,
  levels_loop-split topic done (cur ++ b ∷ []) bs levels skip start (i + 1) (Stands-next topic b at)
      k,
  put_front-append cur (b ∷ []) (split bs),
)

-- On a topic that is not empty, `splitTopicLevels` never panics and returns what
-- `strings.Split` does.
pub split_topic_levels-split :
    (b : ℕ) (bs : Bytes) → split_topic_levels (b ∷ bs) ≡ ok (split (b ∷ bs))
unfolding split_topic_levels
split_topic_levels-split b bs =
    levels_loop-split (b ∷ bs) [] [] (b ∷ bs) [] 0 0 0
      (record { whole = refl; start_at = refl; i_at = refl }) tt
    ∙ ap ok (put_front-nil (split (b ∷ bs)) (split-ne-nil (b ∷ bs)))
