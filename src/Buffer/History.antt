-- ===== src/Buffer/History.antt =====
-- Any history of calls on a jitter buffer.
use discord_ext_voice_recv.Base.{
  ℕ, ◌≡◌, ◌≢◌, true, false, Option, none, List, [], ◌∷◌, All, ok, inl, inr, ◌⊎◌, refl,
}
use discord_ext_voice_recv.Base.Int.{ℤ}
use discord_ext_voice_recv.Compare.{PacketCmp}
use discord_ext_voice_recv.Buffer.Ready.{
  IsValid, Is16Bit, is_ready, Pops, waits, takes, pop-Pops, push-IsValid, pop-IsValid,
  advance-IsValid, resync_to_next-IsValid, flush-IsValid, reset-IsValid, init-IsValid,
}
use discord_ext_voice_recv.Buffer.{Buffer, init, push, pop, advance, resync_to_next, flush, reset}

-- The calls that change a buffer.
pub data Call {ℓ} (A : Type ℓ) : Type ℓ where
  pushes : A → Call A
  pops resyncs flushes resets : Call A
  advances : ℕ → Call A

module _ {ℓ} {A : Type ℓ} ⦃c : PacketCmp A⦄ where
  unfoldable pub step : Buffer A → Call A → Buffer A
  step b (pushes p) = (push b p).0
  step b pops = (pop b).0
  step b resyncs = resync_to_next b
  step b flushes = (flush b).0
  step b resets = reset b
  step b (advances n) = advance b n

  unfoldable pub run : Buffer A → List (Call A) → Buffer A
  run b [] = b
  run b (k ∷ ks) = run (step b k) ks

  abbrev pub Is16BitCall : Call A → Type 0
  Is16BitCall (pushes p) = Is16Bit p
  Is16BitCall _ = Unit {0}

  step-IsValid : (b : Buffer A) (k : Call A) → Is16BitCall k → IsValid b → IsValid (step b k)
  unfolding step
  step-IsValid b (pushes p) h v = push-IsValid b p h v
  step-IsValid b pops h v = pop-IsValid b v
  step-IsValid b resyncs h v = resync_to_next-IsValid b v
  step-IsValid b flushes h v = flush-IsValid b v
  step-IsValid b resets h v = reset-IsValid b v
  step-IsValid b (advances n) h v = advance-IsValid b n v

  run-IsValid :
      (b : Buffer A) (ks : List (Call A)) → All Is16BitCall ks → IsValid b → IsValid (run b ks)
  unfolding run
  run-IsValid b [] h v = v
  run-IsValid b (k ∷ ks) h v = run-IsValid (step b k) ks h.1 (step-IsValid b k h.0 v)

  -- After any history of calls with 16-bit sequence numbers on a buffer that `__init__` made, the
  -- buffer holds at most `maxsize` packets, its cursor is -1 or a 16-bit number, and its event is
  -- set exactly when the prefill is done, more than `prefsize` packets are held, and the next one
  -- continues the stream or the buffer is full.
  pub run-init-IsValid :
      (maxsize prefsize : ℤ) (prefill : ℕ) (b : Buffer A) (ks : List (Call A))
      → init maxsize prefsize prefill ≡ ok b
      → All Is16BitCall ks
      → IsValid (run b ks)
  run-init-IsValid maxsize prefsize prefill b ks e h =
      run-IsValid b ks h (init-IsValid maxsize prefsize prefill e)

  Pops-is_ready :
      (b : Buffer A) (o : Buffer A × Option A)
      → Pops b o
      → ((o.1 ≢ none) × (is_ready b ≡ true)) ⊎ ((o ≡ (b, none)) × (is_ready b ≡ false))
  Pops-is_ready b _ (waits idle) = inr (refl, idle)
  Pops-is_ready b _ (takes p l r ready e popped) = inl (λ n. cc, ready)

  -- On a valid buffer `pop` returns a packet if one may go out, and otherwise returns `None` and
  -- changes nothing.
  pub pop-is_ready :
      (b : Buffer A)
      → IsValid b
      → (((pop b).1 ≢ none) × (is_ready b ≡ true)) ⊎ ((pop b ≡ (b, none)) × (is_ready b ≡ false))
  pop-is_ready b v = Pops-is_ready b (pop b) (pop-Pops b v)
