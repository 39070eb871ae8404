-- ===== src/Transport/Frame/Publish.antt =====
-- internal/transport/tcp.go: PUBLISH packets on their way from the encoder to the parser.
use goqtt.Base.{
  sym, ◌∙◌, ℕ, ◌+◌, List, [], ◌∷◌, ◌++◌, length, ◌≡◌, refl, arith, map, All, ap, concat,
}
use goqtt.Base.Int.{pos}
use goqtt.Encoding.Length.{encode_remaining_length}
use goqtt.Er.{ok}
use goqtt.Packet.Publish.{publish_first_byte, PublishPacket, encode_publish, parse_publish}
use goqtt.Packet.Publish.Safe.{IsValid}
use goqtt.Packet.Publish.RoundTrip.{
  encode_publish-wire, length-body, body, parse_publish-encode_publish,
}
use goqtt.Transport.Frame.Stream.{IsFrame, packets_of, packets_of-concat}

encode_publish-IsFrame : (p : PublishPacket) → IsValid p → IsFrame (encode_publish p)
encode_publish-IsFrame p v = record {
  header = publish_first_byte p.dup p.qos p.retain;
  body = body p v;
  size_le = omega (arith, length-body p v, v.size);
  framed =
      encode_publish-wire p v
      ∙ ap
          (λ (n : ℕ).
            publish_first_byte p.dup p.qos p.retain ∷ (encode_remaining_length (pos n) ++ body p v))
          (sym (length-body p v));
}

map-IsFrame : (ps : List PublishPacket) → All IsValid ps → All IsFrame (map encode_publish ps)
map-IsFrame [] v = tt
map-IsFrame (p ∷ ps) v = (encode_publish-IsFrame p v.0, map-IsFrame ps v.1)

every_parse :
    (ps : List PublishPacket)
    → All IsValid ps
    → map parse_publish (map encode_publish ps)
      ≡ map (λ p. ok (record p { raw = encode_publish p })) ps
every_parse [] v = refl
every_parse (p ∷ ps) v = rw (parse_publish-encode_publish p v.0, every_parse ps v.1) refl

-- PUBLISH packets that are written one behind the other are taken off the stream one by one, and
-- parsed to what they were, each with its own bytes for its raw field.
pub parse_publish-packets_of :
    (ps : List PublishPacket)
    → All IsValid ps
    → let stream = concat (map encode_publish ps) in
      map parse_publish (packets_of (length stream + 1) stream)
      ≡ map (λ p. ok (record p { raw = encode_publish p })) ps
parse_publish-packets_of ps v =
    rw (packets_of-concat (map encode_publish ps) (map-IsFrame ps v)) (every_parse ps v)
