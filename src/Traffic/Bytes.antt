-- ===== src/Traffic/Bytes.antt =====
-- The read loop refines the same loop over the buffered bytes alone.
use mini_ray.Base.{
  inr, blocks, inl, ap, refl, none, length, suc, ◌≡◌, err, M, Option, ltb, ok, zero, List, Result,
  ◌∙◌, false, arith, some, Bool-cases, ℕ, panics,
}
use mini_ray.Codec.{Header, decode_inner_payload}
use mini_ray.Codec.Decode.{paired, zero_copy_decode_lem, split_frame, Decodes}
use mini_ray.External.{Proto, Reader}
use mini_ray.Messages.{Message}
use mini_ray.Traffic.{
  Served, serve, done, hung, out_of_fuel, crashed, stay, after_packet, after_decode, traffic_loop,
}

module _ {C D S : Type 0} (view : C → D) where
  -- The end of a call, seen through the buffered bytes.
  abbrev pub seen : Served C S → Served D S
  seen (done a c s) = done a (view c) s
  seen (crashed x c s) = crashed x (view c) s
  seen (hung c s) = hung (view c) s
  seen out_of_fuel = out_of_fuel

module _ {S : Type 0} (p : Proto) (on_packet : Header → Message → M S (Unit {0})) where
  abbrev pub after_split :
      (List ℕ → S → Served (List ℕ) S) → List ℕ → S → Option (List ℕ × List ℕ) → Served (List ℕ) S
  after_split again bs s none = done stay bs s
  after_split again bs s (some (payload, rest)) =
      after_decode on_packet again s (paired (decode_inner_payload p payload), rest)

  -- The specification: cut off whole frames from the front, as long as there is one.
  unfoldable pub serve_bytes : ℕ → List ℕ → S → Served (List ℕ) S
  serve_bytes zero bs s = out_of_fuel
  serve_bytes (suc fuel) bs s = after_split (serve_bytes fuel) bs s (split_frame bs)

module _ {C S : Type 0} (g : Reader C) (p : Proto)
    (on_packet : Header → Message → M S (Unit {0})) where
  after_packet-seen :
      (again : C → S → Served C S) (again' : List ℕ → S → Served (List ℕ) S) (c : C)
      → ((s : S) → seen g.inbound (again c s) ≡ again' (g.inbound c) s)
      → (r : Result (Unit {0}) × S)
      → seen g.inbound (after_packet again c r) ≡ after_packet again' (g.inbound c) r
  after_packet-seen again again' c h (ok u, s) = h s
  after_packet-seen again again' c h (err e, s) = refl
  after_packet-seen again again' c h (panics x, s) = refl
  after_packet-seen again again' c h (blocks, s) = refl

  after_decode-seen :
      (again : C → S → Served C S) (again' : List ℕ → S → Served (List ℕ) S)
      → ((c : C) (s : S) → seen g.inbound (again c s) ≡ again' (g.inbound c) s)
      → (s : S) (r : Result (Header × Message) × C)
      → seen g.inbound (after_decode on_packet again s r)
        ≡ after_decode on_packet again' s (r.0, g.inbound r.1)
  after_decode-seen again again' h s (ok (hd, m), c) =
      after_packet-seen again again' c (h c) (on_packet hd m s)
  after_decode-seen again again' h s (err e, c) = refl
  after_decode-seen again again' h s (panics x, c) = refl
  after_decode-seen again again' h s (blocks, c) = refl

  -- A buffer without a whole frame is left alone, also the empty one.
  step-seen :
      (fuel : ℕ) (c : C) (s : S) (o : Option (List ℕ × List ℕ)) (r : Result (Header × Message) × C)
      → ((c : C) (s : S)
          → seen g.inbound (traffic_loop g p on_packet fuel c s)
            ≡ serve_bytes p on_packet fuel (g.inbound c) s)
      → split_frame (g.inbound c) ≡ o
      → Decodes g p c o r
      → seen g.inbound (after_decode on_packet (traffic_loop g p on_packet fuel) s r)
        ≡ serve_bytes p on_packet (suc fuel) (g.inbound c) s
  unfolding serve_bytes
  step-seen fuel c s none r ih e d = rw (e, after_split, d) refl
  step-seen fuel c s (some (payload, rest)) r ih e (got, left) =
      after_decode-seen (traffic_loop g p on_packet fuel) (serve_bytes p on_packet fuel) ih s r
      ∙ rw (e, after_split, got, left) refl

  split_frame-empty :
      (c : C) → ltb 0 (length (g.inbound c)) ≡ false → split_frame (g.inbound c) ≡ none
  unfolding split_frame
  split_frame-empty c h = ground arith

  traffic_loop-seen :
      (fuel : ℕ) (c : C) (s : S)
      → seen g.inbound (traffic_loop g p on_packet fuel c s)
        ≡ serve_bytes p on_packet fuel (g.inbound c) s
  unfolding traffic_loop serve_bytes
  traffic_loop-seen zero c s = refl
  traffic_loop-seen (suc fuel) c s = elim (Bool-cases (ltb 0 (length (g.inbound c)))) [
    | inl more ↦
        rw (g.buffered_lem c, more)
          (step-seen fuel c s _ _ (traffic_loop-seen fuel) refl (zero_copy_decode_lem g p c))
    | inr nothing ↦ rw (g.buffered_lem c, nothing, split_frame-empty c nothing, after_split) refl
  ]

  -- A call of OnTraffic over a gnet connection ends as the loop over its buffered bytes alone does,
  -- with the same bytes left over and the same state.
  pub serve-bytes :
      (c : C) (s : S)
      → seen g.inbound (serve g p on_packet c s)
        ≡ serve_bytes p on_packet (suc (length (g.inbound c))) (g.inbound c) s
  unfolding serve
  serve-bytes c s =
      traffic_loop-seen (suc (g.inbound_buffered c)) c s
      ∙ ap (λ n. serve_bytes p on_packet (suc n) (g.inbound c) s) (g.buffered_lem c)
