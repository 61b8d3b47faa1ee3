-- ===== src/Traffic/Chunks.antt =====
-- The loop ends on every buffer, and it does not matter in which pieces the bytes come in.
use mini_ray.Base.{
  ◌∙◌, length-append, sym, subst, short_buffer, Error, ap, false, arith, none, List, blocks, ◌<◌,
  ◌≡◌, some, refl, length, ◌≢◌, M, Option, ℕ, err, zero, panics, ◌++◌, Result, ok, suc,
}
use mini_ray.Codec.{decode_inner_payload, Header}
use mini_ray.Codec.Decode.{split_frame, paired}
use mini_ray.Codec.Split.{
  split_frame-append, paired-IsAnswer, split_frame-length, packet, refused, IsAnswer,
}
use mini_ray.External.{Reader, Proto}
use mini_ray.Messages.{Message}
use mini_ray.Traffic.{
  close, serve, out_of_fuel, stay, Served, done, after_packet, after_decode, is_short,
}
use mini_ray.Traffic.Bytes.{seen, serve-bytes, serve_bytes, after_split}

pub not_short : (x : Error) → x ≢ short_buffer → is_short x ≡ false
not_short short_buffer h = absurd (h refl)
not_short _ h = refl

stay_ne_close : {C S : Type 0} {a b : C} {s t : S} → done close a s ≢ done stay b t
stay_ne_close e = cc

module _ {S : Type 0} (p : Proto) (on_packet : Header → Message → M S (Unit {0})) where
  after_packet-cong :
      (f g : List ℕ → S → Served (List ℕ) S) (r : List ℕ)
      → ((s : S) → f r s ≡ g r s)
      → (q : Result (Unit {0}) × S) → after_packet f r q ≡ after_packet g r q
  after_packet-cong f g r h (ok u, s) = h s
  after_packet-cong f g r h (err e, s) = refl
  after_packet-cong f g r h (panics x, s) = refl
  after_packet-cong f g r h (blocks, s) = refl

  after_decode-cong :
      (f g : List ℕ → S → Served (List ℕ) S) (r : List ℕ) (s : S)
      → ((s : S) → f r s ≡ g r s)
      → (d : Result (Header × Message))
      → after_decode on_packet f s (d, r) ≡ after_decode on_packet g s (d, r)
  after_decode-cong f g r s h (ok (hd, m)) = after_packet-cong f g r h (on_packet hd m s)
  after_decode-cong f g r s h (err e) = refl
  after_decode-cong f g r s h (panics x) = refl
  after_decode-cong f g r s h blocks = refl

  after_split-cong :
      (f g : List ℕ → S → Served (List ℕ) S) (bs : List ℕ) (s : S) (o : Option (List ℕ × List ℕ))
      → ((x rest : List ℕ) → o ≡ some (x, rest) → (s : S) → f rest s ≡ g rest s)
      → after_split p on_packet f bs s o ≡ after_split p on_packet g bs s o
  after_split-cong f g bs s none h = refl
  after_split-cong f g bs s (some (x, rest)) h =
      after_decode-cong f g rest s (h x rest refl) (paired (decode_inner_payload p x))

  -- Fuel beyond the length of the buffer makes no difference.
  serve_bytes-fuel :
      (f g : ℕ) (bs : List ℕ) (s : S)
      → length bs < f
      → length bs < g
      → serve_bytes p on_packet f bs s ≡ serve_bytes p on_packet g bs s
  unfolding serve_bytes
  serve_bytes-fuel zero g bs s hf hg = absurd (omega arith)
  serve_bytes-fuel (suc f) zero bs s hf hg = absurd (omega arith)
  serve_bytes-fuel (suc f) (suc g) bs s hf hg =
      after_split-cong (serve_bytes p on_packet f) (serve_bytes p on_packet g) bs s (split_frame bs)
        (λ x rest e s'.
          serve_bytes-fuel f g rest s' (omega (arith, split_frame-length bs x rest e))
            (omega (arith, split_frame-length bs x rest e)))

  after_packet-ends :
      (f : List ℕ → S → Served (List ℕ) S) (r : List ℕ)
      → ((s : S) → f r s ≢ out_of_fuel)
      → (q : Result (Unit {0}) × S) → after_packet f r q ≢ out_of_fuel
  after_packet-ends f r h (ok u, s) = h s
  after_packet-ends f r h (err e, s) = λ x. cc
  after_packet-ends f r h (panics y, s) = λ x. cc
  after_packet-ends f r h (blocks, s) = λ x. cc

  after_split-ends :
      (f : List ℕ → S → Served (List ℕ) S) (bs : List ℕ) (s : S) (o : Option (List ℕ × List ℕ))
      → ((x rest : List ℕ) → o ≡ some (x, rest) → (s : S) → f rest s ≢ out_of_fuel)
      → after_split p on_packet f bs s o ≢ out_of_fuel
  after_split-ends f bs s none h = λ x. cc
  after_split-ends f bs s (some (x, rest)) h = go (paired (decode_inner_payload p x))
    where
      go : (d : Result (Header × Message)) → after_decode on_packet f s (d, rest) ≢ out_of_fuel
      go (ok (hd, m)) = after_packet-ends f rest (h x rest refl) (on_packet hd m s)
      go (err e) = λ x. cc
      go (panics y) = λ x. cc
      go blocks = λ x. cc

  serve_bytes-ne-out_of_fuel :
      (f : ℕ) (bs : List ℕ) (s : S) → length bs < f → serve_bytes p on_packet f bs s ≢ out_of_fuel
  unfolding serve_bytes
  serve_bytes-ne-out_of_fuel zero bs s h = absurd (omega arith)
  serve_bytes-ne-out_of_fuel (suc f) bs s h =
      after_split-ends (serve_bytes p on_packet f) bs s (split_frame bs) (λ x rest e s'.
        serve_bytes-ne-out_of_fuel f rest s' (omega (arith, split_frame-length bs x rest e)))

  module _ (t : List ℕ) where
    -- A step of the loop that goes on over the first piece goes on in the same way over both.
    after_packet-more :
        (f g : List ℕ → S → Served (List ℕ) S) (r rest : List ℕ) (s' : S) (end : Served (List ℕ) S)
        → ((s : S) → f r s ≡ done stay rest s' → g (r ++ t) s ≡ end)
        → (q : Result (Unit {0}) × S) → after_packet f r q ≡ done stay rest s'
        → after_packet g (r ++ t) q ≡ end
    after_packet-more f g r rest s' end h (ok u, s) e = h s e
    after_packet-more f g r rest s' end h (err x, s) e = absurd (ground arith)
    after_packet-more f g r rest s' end h (panics x, s) e = cc
    after_packet-more f g r rest s' end h (blocks, s) e = cc

    after_decode-more :
        (f g : List ℕ → S → Served (List ℕ) S) (r rest : List ℕ) (s s' : S)
        (end : Served (List ℕ) S)
        → ((s : S) → f r s ≡ done stay rest s' → g (r ++ t) s ≡ end)
        → {d : Result (Header × Message)} → IsAnswer d
        → after_decode on_packet f s (d, r) ≡ done stay rest s'
        → after_decode on_packet g s (d, r ++ t) ≡ end
    after_decode-more f g r rest s s' end h (packet hd m) e =
        after_packet-more f g r rest s' end h (on_packet hd m s) e
    after_decode-more f g r rest s s' end h (refused x ne) e =
        absurd (stay_ne_close (rw (not_short x ne) at e))

    split-more :
        (f k : ℕ) (bs rest : List ℕ) (s s' : S) (end : Served (List ℕ) S)
        (o : Option (List ℕ × List ℕ))
        → ((j : ℕ) → length (rest ++ t) < j → serve_bytes p on_packet j (rest ++ t) s' ≡ end)
        → ((r : List ℕ) (s1 : S)
            → length (r ++ t) < k
            → serve_bytes p on_packet f r s1 ≡ done stay rest s'
            → serve_bytes p on_packet k (r ++ t) s1 ≡ end)
        → length (bs ++ t) < suc k
        → split_frame bs ≡ o
        → after_split p on_packet (serve_bytes p on_packet f) bs s o ≡ done stay rest s'
        → serve_bytes p on_packet (suc k) (bs ++ t) s ≡ end
    unfolding serve_bytes
    split-more f k bs rest s s' end none h ih hk q e =
        let same : bs ≡ rest = cc in
        let state : s ≡ s' = cc in
        ap (λ b. serve_bytes p on_packet (suc k) (b ++ t) s) same
        ∙ ap (serve_bytes p on_packet (suc k) (rest ++ t)) state
        ∙ h (suc k) (subst (λ b. length (b ++ t) < suc k) same hk)
    split-more f k bs rest s s' end (some (x, r)) h ih hk q e =
        let (ten, size) = split_frame-length bs x r q in
        let room : length (r ++ t) < k = omega (arith, length-append r t, length-append bs t) in
        rw (split_frame-append bs t x r q) (
          after_decode-more (serve_bytes p on_packet f) (serve_bytes p on_packet k) r rest s s' end
            (λ s1. ih r s1 room) (paired-IsAnswer p x ten) e)

    serve_bytes-more :
        (f k : ℕ) (bs rest : List ℕ) (s s' : S) (end : Served (List ℕ) S)
        → ((j : ℕ) → length (rest ++ t) < j → serve_bytes p on_packet j (rest ++ t) s' ≡ end)
        → length (bs ++ t) < k
        → serve_bytes p on_packet f bs s ≡ done stay rest s'
        → serve_bytes p on_packet k (bs ++ t) s ≡ end
    unfolding serve_bytes
    serve_bytes-more zero k bs rest s s' end h hk e = cc
    serve_bytes-more (suc f) zero bs rest s s' end h hk e = absurd (omega arith)
    serve_bytes-more (suc f) (suc k) bs rest s s' end h hk e =
        split-more f k bs rest s s' end (split_frame bs) h
          (λ r s1 room. serve_bytes-more f k r rest s1 s' end h room) hk refl e

module _ {C S : Type 0} (g : Reader C) (p : Proto)
    (on_packet : Header → Message → M S (Unit {0})) where
  -- Let a call of OnTraffic over the bytes of `c` end with gnet.None and leave `c'` and `s'`. If
  -- `d` holds the bytes of `c` and then `t`, and `d'` the left-over of `c'` and then `t`, the call
  -- over `d` from `s` ends as the call over `d'` from `s'` does, with the same bytes left over and
  -- the same state: it does not matter how a stream is cut into arrivals.
  pub serve-append :
      (c c' d d' : C) (s s' : S) (t : List ℕ)
      → serve g p on_packet c s ≡ done stay c' s'
      → g.inbound d ≡ g.inbound c ++ t
      → g.inbound d' ≡ g.inbound c' ++ t
      → seen g.inbound (serve g p on_packet d s) ≡ seen g.inbound (serve g p on_packet d' s')
  serve-append c c' d d' s s' t first both left =
      serve-bytes g p on_packet d s
      ∙ rw both (
          serve_bytes-more p on_packet t (suc (length (g.inbound c))) _ (g.inbound c) (g.inbound c')
            s s' _
            (λ j room.
              serve_bytes-fuel p on_packet j (suc (length (g.inbound c' ++ t))) (g.inbound c' ++ t)
                s' room (omega arith)
              ∙ rw (← left) (sym (serve-bytes g p on_packet d' s')))
            (omega arith) (sym (serve-bytes g p on_packet c s) ∙ ap (seen g.inbound) first))

  -- The loop of OnTraffic ends on every buffer and for every handler: the fuel, one more than the
  -- buffered bytes, is never used up.
  pub serve-ne-out_of_fuel : (c : C) (s : S) → serve g p on_packet c s ≢ out_of_fuel
  serve-ne-out_of_fuel c s e =
      serve_bytes-ne-out_of_fuel p on_packet _ (g.inbound c) s (omega arith)
        (sym (serve-bytes g p on_packet c s) ∙ ap (seen g.inbound) e)
