-- ===== src/Signals.antt =====
-- common/safe_exit.go: what is to be done before the process ends, in the order of registration.
use mini_ray.Base.{
  Result, and_then, err, ◌∙◌, ok, blocks, refl, ap, sym, panics, ◌>>◌, ℕ, Option, [], ◌∷◌, pure,
  some, ◌++◌, none, M, List, ◌≡◌,
}

abbrev pub Signal : Type 0
Signal = ℕ

abbrev sighup : Signal
sighup = 1

-- What RegisterSignal waits for.
pub data Wake : Type 0 where
  context_over : Wake
  caught : Signal → Wake

-- The signal that the handlers are called with.
abbrev pub signal_of : Wake → Signal
signal_of context_over = sighup
signal_of (caught sig) = sig

-- SafeExit of a handler, over the state of the process; it gives no error.
abbrev pub Handler : Type 0 → Type 0
Handler S = Signal → M S (Unit {0})

module _ {S : Type 0} where
  and_then-pure : (r : Result (Unit {0}) × S) → and_then r (λ _. pure tt) ≡ r
  and_then-pure (ok u, s) = refl
  and_then-pure (err e, s) = refl
  and_then-pure (panics x, s) = refl
  and_then-pure (blocks, s) = refl

  and_then_assoc :
      (r : Result (Unit {0}) × S) (f g : M S (Unit {0}))
      → and_then (and_then r (λ _. f)) (λ _. g) ≡ and_then r (λ _ s. and_then (f s) (λ _. g))
  and_then_assoc (ok u, s) f g = refl
  and_then_assoc (err e, s) f g = refl
  and_then_assoc (panics x, s) f g = refl
  and_then_assoc (blocks, s) f g = refl

  -- A nil handler is not registered.
  unfoldable pub register_handler : Option (Handler S) → List (Handler S) → List (Handler S)
  register_handler none handlers = handlers
  register_handler (some h) handlers = handlers ++ (h ∷ [])

  -- A handler that panics keeps the rest from being called.
  unfoldable call_handlers : List (Handler S) → Signal → M S (Unit {0})
  call_handlers [] sig = pure tt
  call_handlers (h ∷ handlers) sig = h sig >> call_handlers handlers sig

  unfoldable pub register_signal : List (Handler S) → Wake → M S (Unit {0})
  unfolding call_handlers
  register_signal handlers wake = call_handlers handlers (signal_of wake)

  call_handlers-append :
      (hs : List (Handler S)) (h : Handler S) (sig : Signal)
      → call_handlers (hs ++ (h ∷ [])) sig ≡ (call_handlers hs sig >> h sig)
  unfolding call_handlers
  call_handlers-append [] h sig = λ i s. and_then-pure (h sig s) i
  call_handlers-append (g ∷ hs) h sig = λ i s.
      (ap (λ f. and_then (g sig s) (λ _. f)) (call_handlers-append hs h sig)
          ∙ sym (and_then_assoc (g sig s) (call_handlers hs sig) (h sig)))
        i

  -- For a signal and for the end of the context alike, RegisterSignal after one more
  -- RegisterHandler does what it did before and then calls the new handler with the same signal, if
  -- what came before ended without a panic; and a nil handler changes nothing.
  pub register_signal-register_handler :
      (o : Option (Handler S)) (hs : List (Handler S)) (wake : Wake) (s : S)
      → register_signal (register_handler o hs) wake s
        ≡ and_then
            (register_signal hs wake s)
            (λ _. elim o [ none ↦ pure tt | some h ↦ h (signal_of wake) ])
  unfolding register_signal register_handler
  register_signal-register_handler none hs wake s =
      sym (and_then-pure (call_handlers hs (signal_of wake) s))
  register_signal-register_handler (some h) hs wake s =
      ap (λ f. f s) (call_handlers-append hs h (signal_of wake))
