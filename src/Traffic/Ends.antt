-- ===== src/Traffic/Ends.antt =====
-- If OnPacket is safe for every packet that the codec gives, OnTraffic is safe for every buffer.
use mini_ray.Base.{
  ℕ, List, M, ok, some, none, ◌≡◌, Bool-cases, length, ltb, inl, inr, arith, sym, ◌∙◌, ap, drop,
  take, subst,
}
use mini_ray.Base.Safety.{Safe, Lands}
use mini_ray.Codec.{Header, decode_inner_payload, header_of}
use mini_ray.Codec.Dispatch.{unmarshal_by_uri-uri, uri_of}
use mini_ray.Codec.Endian.{uint}
use mini_ray.External.{Proto, Reader}
use mini_ray.Messages.{Message, kind_of}
use mini_ray.Traffic.{Served, serve, done, hung, crashed, out_of_fuel}
use mini_ray.Traffic.Bytes.{seen}
use mini_ray.Traffic.Runs.{
  Runs, serve-Runs, keeps_bytes, drops_payload, goes_on, closes_on_error, passes_panic,
  never_returns,
}

decoded-uri :
    (p : Proto) (payload : List ℕ) (h : Header) (m : Message)
    → decode_inner_payload p payload ≡ (some h, ok m)
    → h.uri ≡ uri_of (kind_of m)
unfolding decode_inner_payload
decoded-uri p payload h m e = elim (Bool-cases (ltb (length payload) 10)) [
  | inl short ↦
      let no_header : none ≡ some h = ap (λ r. r.0) (rw short at e) in absurd (ground arith)
  | inr long ↦
      let q = rw long at e in
      let same : some (header_of payload) ≡ some h = ap (λ r. r.0) q in
      let header : header_of payload ≡ h = cc in
      ap (λ (k : Header). k.uri) (sym header)
      ∙ unmarshal_by_uri-uri p (uint (take 2 payload)) (drop 10 payload) m (ap (λ r. r.1) q)
]

module _ {S : Type 0} (P : S → Type 0) where
  -- The call comes back, and leaves a state with P.
  abbrev pub Ends : {C : Type 0} → Served C S → Type 0
  Ends (done a c s) = P s
  Ends (crashed x c s) = ⊥
  Ends (hung c s) = ⊥
  Ends out_of_fuel = ⊥

  seen-Ends : {C D : Type 0} (view : C → D) (r : Served C S) → Ends (seen view r) → Ends r
  seen-Ends view (done a c s) v = v
  seen-Ends view (crashed x c s) v = v
  seen-Ends view (hung c s) v = v
  seen-Ends view out_of_fuel v = v

  module _ (p : Proto) (on_packet : Header → Message → M S (Unit {0}))
      (safe : (h : Header) (m : Message)
        → h.uri ≡ uri_of (kind_of m)
        → Safe P (on_packet h m)) where
    Runs-Ends :
        (bs : List ℕ) (s : S) (r : Served (List ℕ) S) → Runs p on_packet bs s r → P s → Ends r
    Runs-Ends bs s r (keeps_bytes _ _ e) v = v
    Runs-Ends bs s r (drops_payload _ payload rest o x _ frames e) v = v
    Runs-Ends bs s r (goes_on _ payload rest h m _ s' _ frames held e next) v =
        Runs-Ends rest s' r next
          (subst (Lands P) e (safe h m (decoded-uri p payload h m held) s v)).0
    Runs-Ends bs s r (closes_on_error _ payload rest h m _ s' x frames held e) v =
        (subst (Lands P) e (safe h m (decoded-uri p payload h m held) s v)).0
    Runs-Ends bs s r (passes_panic _ payload rest h m _ s' x frames held e) v =
        let low = (subst (Lands P) e (safe h m (decoded-uri p payload h m held) s v)).1 in
        absurd (ground arith)
    Runs-Ends bs s r (never_returns _ payload rest h m _ s' frames held e) v =
        let low = (subst (Lands P) e (safe h m (decoded-uri p payload h m held) s v)).1 in
        absurd (ground arith)

    pub serve-Ends :
        {C : Type 0} (g : Reader C) (c : C) (s : S) → P s → Ends (serve g p on_packet c s)
    serve-Ends g c s v =
        seen-Ends g.inbound (serve g p on_packet c s)
          (Runs-Ends (g.inbound c) s _ (serve-Runs g p on_packet c s) v)
