-- ===== src/Packet/Unsubscribe/Safe.antt =====
-- `UnsubscribePacket.Parse` on any bytes: its loop ends, it does not panic, and what it accepts is
-- well formed.
use goqtt.Base.{
  ℕ, zero, suc, ◌+◌, ◌≤◌, ◌<◌, List, [], ◌∷◌, ◌++◌, ◌≡◌, refl, arith, ltb, length, All, Bytes,
  IsByte, IsU16,
}
use goqtt.Encoding.Length.Field.{parse_remaining_length-Ensures}
use goqtt.Er.{ok, Ensures, done, Ensures-bind, Ensures-fail_if, Ensures-if}
use goqtt.Packet.Filter.Safe.{validate_unsubscribe_topic_filter-Ensures}
use goqtt.Packet.Filter.{validate_unsubscribe_topic_filter}
use goqtt.Packet.Unsubscribe.{
  UnsubscribePacket, unsubscribe_header, read_topic_filter, topic_filters_loop, parse_unsubscribe,
}
use goqtt.Slice.Safe.{index-Ensures, slice-Ensures, read_uint16-Ensures}

pub record IsTopicFilter (f : Bytes) : Type 0 where
  pub topic_valid : validate_unsubscribe_topic_filter f ≡ ok tt
  pub topic_pos : 0 < length f
  pub topic_length : IsU16 (length f)

pub record IsValid (p : UnsubscribePacket) : Type 0 where
  pub id_pos : 0 < p.packet_id
  pub id_u16 : IsU16 p.packet_id
  pub some_filter : 0 < length p.topic_filters
  pub filters_valid : All IsTopicFilter p.topic_filters

pub All-append :
    (fs : List Bytes) (f : Bytes)
    → All IsTopicFilter fs
    → IsTopicFilter f
    → All IsTopicFilter (fs ++ f ∷ [])
All-append [] f h k = (k, tt)
All-append (g ∷ fs) f h k = (h.0, All-append fs f h.1 k)

module _ (raw : Bytes) (bytes : All IsByte raw) where
  unsubscribe_header-Ensures :
      Ensures (λ h. (0 < h.0) × IsU16 h.0 × (h.1 ≤ length raw)) (unsubscribe_header raw)
  unfolding unsubscribe_header
  unsubscribe_header-Ensures = Ensures-fail_if _ _ _ _ λ long.
      Ensures-bind _ _ (index-Ensures raw 0 bytes (ground arith)) λ b0 _ _.
        Ensures-fail_if _ _ _ _ λ _. Ensures-fail_if _ _ _ _ λ _.
          Ensures-bind _ _ (slice-Ensures raw 1 (length raw) bytes (ground arith) (omega arith))
            λ tail _ t. Ensures-bind _ _ (parse_remaining_length-Ensures tail t.0) λ p _ q.
              Ensures-fail_if _ _ _ _ λ same. Ensures-fail_if _ _ _ _ λ four.
                Ensures-fail_if _ _ _ _ λ room.
                  Ensures-bind _ _ (read_uint16-Ensures raw (p.1 + 1) bytes (ground arith))
                    λ n _ word.
                      Ensures-fail_if _ _ _ _ λ nonzero. done (ground arith, word, ground arith)

  read_topic_filter-Ensures :
      (offset : ℕ)
      → Ensures
          (λ r. IsTopicFilter r.0 × (offset < r.1) × (r.1 ≤ length raw))
          (read_topic_filter raw offset)
  unfolding read_topic_filter
  read_topic_filter-Ensures offset = Ensures-fail_if _ _ _ _ λ room.
      Ensures-bind _ _ (read_uint16-Ensures raw offset bytes (ground arith)) λ n _ word.
        Ensures-fail_if _ _ _ _ λ nonzero. Ensures-fail_if _ _ _ _ λ fits.
          Ensures-bind _ _
            (slice-Ensures raw (offset + 2) (offset + 2 + n) bytes (omega arith) (ground arith))
            λ topic _ t.
              Ensures-bind _ _ (validate_unsubscribe_topic_filter-Ensures topic) λ u accepted _.
                done (
                  record {
                    topic_valid = accepted;
                    topic_pos = ground arith;
                    topic_length = omega (arith, t.1);
                  },
                  omega arith,
                  ground arith,
                )

  topic_filters_loop-Ensures :
      (fuel offset : ℕ) (filters : List Bytes)
      → length raw ≤ offset + fuel
      → All IsTopicFilter filters
      → Ensures (All IsTopicFilter) (topic_filters_loop fuel raw offset filters)
  unfolding topic_filters_loop
  topic_filters_loop-Ensures zero offset filters enough valid =
      Ensures-if (ltb offset (length raw)) (λ more. absurd (ground arith)) λ _. done valid
  topic_filters_loop-Ensures (suc fuel) offset filters enough valid =
      Ensures-if (ltb offset (length raw))
        (λ more. Ensures-bind _ _ (read_topic_filter-Ensures offset) λ r _ q.
          topic_filters_loop-Ensures fuel r.1 (filters ++ r.0 ∷ []) (omega (arith, q.1))
            (All-append filters r.0 valid q.0))
        λ _. done valid

  -- On any bytes the parser returns, with no panic, and its loop ends; a packet that it accepts
  -- has an identifier other than 0 and at least one filter, each of them valid.
  pub parse_unsubscribe-Ensures : Ensures (λ p. IsValid p × (p.raw ≡ raw)) (parse_unsubscribe raw)
  unfolding parse_unsubscribe
  parse_unsubscribe-Ensures = Ensures-bind _ _ unsubscribe_header-Ensures λ h _ hp.
      Ensures-bind _ _ (topic_filters_loop-Ensures (length raw) h.1 [] (omega arith) tt)
        λ fs _ valid. Ensures-fail_if _ _ _ _ λ some_filter. done (
          record {
            id_pos = hp.0;
            id_u16 = hp.1;
            some_filter = ground arith;
            filters_valid = valid;
          },
          refl,
        )
