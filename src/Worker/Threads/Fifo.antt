-- ===== src/Worker/Threads/Fifo.antt =====
-- The channel of results between the event loop and Loop is first in, first out.
use mini_ray.Worker.Threads.{
  handles, offers, puts, passes, answers, reports, here, after, Step, Reach, Threads, at_start,
  after_round, put, result_of,
}
use mini_ray.Base.{
  append_assoc, ◌≤◌, ◌∷◌, GoString, ℕ, true, Option, ap, ◌≡◌, sym, none, ◌++◌, false, List, subst,
  [], ltb, inl, inr, length-append, ◌∙◌, Bool-cases, append-nil, length, some, arith, refl,
}
use mini_ray.Worker.{register_object, Worker, set_object, Object, object_id_of}
use mini_ray.Worker.Packets.Channel.{report_object-Has, Has, send_to-Has, on_packet-Has}
use mini_ray.Worker.Node.{new_worker}
use mini_ray.Base.Safety.{returns}
use mini_ray.Client.{Net}
use mini_ray.External.{Proto}

-- The result in hand, if there is one.
abbrev pub in_hand : Option GoString → List GoString
in_hand none = []
in_hand (some id) = id ∷ []

-- Every result that was offered was taken, is on the channel or in hand, in this order, and the
-- channel is within its capacity.
pub record IsFifo (size : ℕ) (t : Threads) : Type 0 where
  pub ordered : t.offered ≡ t.taken ++ (t.worker.register_chan ++ in_hand t.offering)
  pub sized : t.worker.register_chan_size ≡ size
  pub bounded : length t.worker.register_chan ≤ size

-- A step that leaves the channel as it is and has nothing in hand before or after.
same_chan-IsFifo :
    (size : ℕ) (t : Threads) (w : Worker)
    → Has t.worker.register_chan t.worker.register_chan_size w
    → IsFifo size t
    → IsFifo size (record t { worker = w })
same_chan-IsFifo size t w (e, n) v = record {
  ordered = v.ordered ∙ ap (λ (q : List GoString). t.taken ++ (q ++ in_hand t.offering)) (sym e);
  sized = n ∙ v.sized;
  bounded = subst (λ (q : List GoString). length q ≤ size) (sym e) v.bounded;
}

module _ (net : Net) (p : Proto) (size : ℕ) where
  offers-IsFifo :
      (t : Threads) (id : GoString) (o : Object)
      → t.offering ≡ none
      → IsFifo size t
      → IsFifo size (record t {
        worker = set_object id o t.worker;
        offering = some id;
        offered = t.offered ++ (id ∷ []);
      })
  unfolding set_object
  offers-IsFifo t id o e v = record {
    ordered =
        ap (λ (q : List GoString). q ++ (id ∷ []))
          (v.ordered
            ∙ ap (λ (h : Option GoString). t.taken ++ (t.worker.register_chan ++ in_hand h)) e)
        ∙ ap (λ (q : List GoString). (t.taken ++ q) ++ (id ∷ []))
            (append-nil t.worker.register_chan)
        ∙ append_assoc t.taken t.worker.register_chan (id ∷ []);
    sized = v.sized;
    bounded = v.bounded;
  }

  puts-IsFifo :
      (t : Threads) (id : GoString)
      → t.offering ≡ some id
      → returns (register_object id t.worker).0 ≡ true
      → IsFifo size t
      → IsFifo size (put id t)
  unfolding register_object
  puts-IsFifo t id e back v =
      elim (Bool-cases (ltb (length t.worker.register_chan) t.worker.register_chan_size)) [
        | inl room ↦ rw room (record {
          ordered =
              v.ordered
              ∙ ap (λ (h : Option GoString). t.taken ++ (t.worker.register_chan ++ in_hand h)) e
              ∙ ap (λ (q : List GoString). t.taken ++ q)
                  (sym (append-nil (t.worker.register_chan ++ (id ∷ []))));
          sized = v.sized;
          bounded = ground (arith, room, v.sized, length-append t.worker.register_chan (id ∷ []));
        })
        | inr full ↦ let stays : false ≡ true = rw full at back in absurd (ground arith)
      ]

  after_round-IsFifo :
      (t : Threads) (id : GoString) (rest : List GoString)
      → t.worker.register_chan ≡ id ∷ rest
      → t.worker.register_chan_size ≡ size
      → length rest ≤ size
      → t.offered ≡ t.taken ++ (t.worker.register_chan ++ in_hand t.offering)
      → IsFifo size (after_round net p id t)
  after_round-IsFifo t id rest e n short ordered =
      let (q, m) = report_object-Has net p rest t.worker.register_chan_size id t.worker (e, refl) in
      record {
        ordered =
            ordered
            ∙ ap (λ (q : List GoString). t.taken ++ (q ++ in_hand t.offering)) e
            ∙ sym (append_assoc t.taken (id ∷ []) (rest ++ in_hand t.offering))
            ∙ ap (λ (q : List GoString). (t.taken ++ (id ∷ [])) ++ (q ++ in_hand t.offering))
                (sym q);
        sized = m ∙ n;
        bounded = subst (λ (q : List GoString). length q ≤ size) (sym q) short;
      }

  passes-IsFifo :
      (t : Threads) (id : GoString)
      → t.offering ≡ some id
      → t.worker.register_chan_size ≡ 0
      → IsFifo size t
      → IsFifo size (
          after_round net p id
            (record t { worker = record t.worker { register_chan = id ∷ [] }; offering = none }))
  passes-IsFifo t id e unbuffered v =
      after_round-IsFifo
        (record t { worker = record t.worker { register_chan = id ∷ [] }; offering = none }) id []
        refl v.sized (omega arith)
        (v.ordered
          ∙ ap (λ (h : Option GoString). t.taken ++ (t.worker.register_chan ++ in_hand h)) e
          ∙ ap (λ (q : List GoString). t.taken ++ (q ++ (id ∷ [])))
              (empty t.worker.register_chan (omega (arith, v.bounded, v.sized, unbuffered))))
    where
      empty : (queue : List GoString) → length queue ≡ 0 → queue ≡ []
      empty [] h = refl
      empty (x ∷ xs) h = absurd (omega (arith, h))

  Step-IsFifo : {t u : Threads} → Step net p t u → IsFifo size t → IsFifo size u
  Step-IsFifo (handles t now conn h m e u ne back) v =
      same_chan-IsFifo size t _
        (on_packet-Has net p t.worker.register_chan t.worker.register_chan_size now conn h m u ne
          t.worker (refl, refl))
        v
  Step-IsFifo (offers t now task e) v = offers-IsFifo t (object_id_of task now) (result_of task) e v
  Step-IsFifo (puts t id e back) v = puts-IsFifo t id e back v
  Step-IsFifo (passes t id e unbuffered r) v = passes-IsFifo t id e unbuffered v
  Step-IsFifo (answers t conn payload e) v =
      same_chan-IsFifo size t _
        (send_to-Has net p t.worker.register_chan t.worker.register_chan_size conn payload t.worker
          (refl, refl))
        v
  Step-IsFifo (reports t id rest r e) v =
      after_round-IsFifo t id rest e v.sized (ground (arith, ap length e, v.bounded)) v.ordered

  -- In every state that the event loop and Loop of a worker reach together from the start, in any
  -- interleaving of packets, of results that the event loop stores and puts on the channel, with a
  -- buffer or without, and of rounds of Loop, the results that were offered are those that Loop
  -- took, then those on the channel, then the one in hand, in the order in which they were offered:
  -- none is lost, doubled or overtaken. The channel has its capacity, and no more results than that
  -- on it.
  pub Reach-IsFifo : (t : Threads) → Reach net p (at_start size) t → IsFifo size t
  unfolding new_worker
  Reach-IsFifo t here = record { ordered = refl; sized = refl; bounded = omega arith }
  Reach-IsFifo t (after {u = before} r step) = Step-IsFifo step (Reach-IsFifo before r)
