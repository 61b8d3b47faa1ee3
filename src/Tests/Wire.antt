-- ===== src/Tests/Wire.antt =====
-- Frames, headers and the read loop on concrete bytes.
use mini_ray.Base.{nat_eq, bytes_eq, refl, ◌++◌, [], ℕ, arith, ◌≡◌, drop, ◌∷◌, List, ok, ◌≢◌, take}
use mini_ray.Codec.{take_frame, meta_kind, zero_copy_decode, unmarshal_by_uri}
use mini_ray.Codec.Decode.{split_frame, Decodes, zero_copy_decode_lem}
use mini_ray.Codec.Endian.{uint}
use mini_ray.Codec.RoundTrip.{zero_copy_decode-make_frame}
use mini_ray.Frame.{make_frame}
use mini_ray.Messages.{shake_hand_req}
use mini_ray.Traffic.{done, serve, stay, out_of_fuel}
use mini_ray.Traffic.Bytes.{seen}
use mini_ray.Traffic.Runs.{Runs, serve-Runs}
use mini_ray.Traffic.Chunks.{serve-append, serve-ne-out_of_fuel}
use mini_ray.Traffic.Stream.{stream, serve-stream}
use mini_ray.Tests.Inputs.{count_packets, heartbeat, heartbeat-IsSent, small_proto, list_reader}

abbrev two_and_a_bit : List ℕ
two_and_a_bit =
    0 ∷ 0 ∷ 0 ∷ 10 ∷ (heartbeat.inner ++ (0 ∷ 0 ∷ 0 ∷ 10 ∷ (heartbeat.inner ++ (0 ∷ []))))

-- A frame whose length field is below ten stays at the front, and so does all that follows it.
stalled :
    serve list_reader small_proto count_packets (0 ∷ 0 ∷ 0 ∷ 2 ∷ 1 ∷ 1 ∷ []) 0
    ≡ done stay (0 ∷ 0 ∷ 0 ∷ 2 ∷ 1 ∷ 1 ∷ []) 0
unfolding serve zero_copy_decode uint
stalled = refl

zero_copy_decode_lem_example :
    Decodes list_reader small_proto two_and_a_bit
      (split_frame two_and_a_bit)
      (zero_copy_decode list_reader small_proto two_and_a_bit)
zero_copy_decode_lem_example = zero_copy_decode_lem list_reader small_proto two_and_a_bit

zero_copy_decode-make_frame_example :
    ((zero_copy_decode list_reader small_proto (make_frame heartbeat.inner ++ (9 ∷ []))).0
      ≡ ok (heartbeat.header, shake_hand_req))
    × ((zero_copy_decode list_reader small_proto (make_frame heartbeat.inner ++ (9 ∷ []))).1
        ≡ 9 ∷ [])
zero_copy_decode-make_frame_example =
    zero_copy_decode-make_frame list_reader small_proto heartbeat.header shake_hand_req
      heartbeat.inner (9 ∷ []) (make_frame heartbeat.inner ++ (9 ∷ [])) heartbeat-IsSent.is_header
      heartbeat-IsSent.matches heartbeat-IsSent.encoded (omega arith) refl

serve-Runs_example :
    Runs small_proto count_packets two_and_a_bit 0
      (seen (λ c. c) (serve list_reader small_proto count_packets two_and_a_bit 0))
serve-Runs_example = serve-Runs list_reader small_proto count_packets two_and_a_bit 0

serve-ne-out_of_fuel_example :
    serve list_reader small_proto count_packets two_and_a_bit 0 ≢ out_of_fuel
serve-ne-out_of_fuel_example =
    serve-ne-out_of_fuel list_reader small_proto count_packets two_and_a_bit 0

serve-stream_example :
    seen
      (λ c. c)
      (serve list_reader small_proto count_packets
        (stream (heartbeat ∷ heartbeat ∷ []) ++ (0 ∷ []))
        0)
    ≡ done stay (0 ∷ []) 2
unfolding split_frame
serve-stream_example =
    serve-stream list_reader small_proto count_packets
      (stream (heartbeat ∷ heartbeat ∷ []) ++ (0 ∷ [])) (heartbeat ∷ heartbeat ∷ []) (0 ∷ []) 0 2
      (heartbeat-IsSent, (heartbeat-IsSent, tt)) refl refl refl

-- The first heartbeat with six bytes of the second one, and then the others.
serve-append_example :
    seen (λ c. c) (serve list_reader small_proto count_packets two_and_a_bit 0)
    ≡ seen (λ c. c) (serve list_reader small_proto count_packets (drop 14 two_and_a_bit) 1)
unfolding serve zero_copy_decode uint take_frame unmarshal_by_uri meta_kind
serve-append_example =
    serve-append list_reader small_proto count_packets (take 20 two_and_a_bit)
      (take 6 (drop 14 two_and_a_bit)) two_and_a_bit (drop 14 two_and_a_bit) 0 1
      (drop 20 two_and_a_bit) refl refl refl
