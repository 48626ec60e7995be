-- ===== src/Ps2/Setup/Commands.antt =====
-- What the set-up of the keyboard's controller (drivers/ps2.c) writes to the ports.
use mathlib.Core.List.{append_assoc, append-nil}
use gubos.Prelude.{
  ℕ, zero, suc, ◌<◌, ◌⊎◌, inl, inr, Bool-cases, replicate, ◌≡◌, ◌≢◌, refl, sym, ap, ◌∙◌, ◌==◌, List,
  [], ◌∷◌, ◌++◌, done, ◌>>=◌, bit_and, arith,
}
use gubos.Ps2.{ScancodeQueue, init_scancode_queue}
use gubos.Ps2.Setup.{
  read, Trace, outb, new_config, ps2_data, ps2_ctrl_status_register, ps2_ctrl_cmd_register,
  ps2_port1_resend, ps2_cmd_ctrl_read_config_byte, ps2_cmd_port1_self_test, wait_ready_loop,
  ps2_controller_send_cmd, flush_loop, ps2_controller_configure, ps2_controller_self_test,
  resend_loop, ps2_interface_self_test, set_up_ports, ps2_init_devices,
}
use gubos.Ps2.Setup.Adds.{writes, writes-read, writes-outb, Adds, Adds-bind, gather}

-- The writes of the whole set-up, for the configuration byte that is written and the number of times that the
-- keyboard asks for its test again.
abbrev pub commands : (config again : ℕ) → List (ℕ × ℕ)
commands config again =
    (ps2_ctrl_cmd_register, 0xad)
      ∷ (ps2_ctrl_cmd_register, 0xa7)
      ∷ (ps2_ctrl_cmd_register, 0x60)
      ∷ (ps2_data, config)
      ∷ (ps2_ctrl_cmd_register, 0xaa)
      ∷ (ps2_data, config)
      ∷ (ps2_ctrl_cmd_register, 0xab)
      ∷ replicate again (ps2_ctrl_cmd_register, 0xab)
    ++ ((ps2_ctrl_cmd_register, 0xae) ∷ (ps2_ctrl_cmd_register, 0xa8) ∷ [])

module _ (device : (port : ℕ) → Trace → ℕ) (patience : ℕ) where
  -- one of the next `n` looks at the status finds room for a command
  abbrev pub Ready : (n : ℕ) → Trace → Type 0
  Ready zero t = ⊥
  Ready (suc n) t =
      (bit_and (device ps2_ctrl_status_register t) 2 ≡ 0)
      ⊎ Ready n (t ++ (read ps2_ctrl_status_register ∷ []))

  -- when each look at the status is followed by a read of a byte, one of the next `n` looks finds none left
  abbrev pub Drains : (n : ℕ) → Trace → Type 0
  Drains zero t = ⊥
  Drains (suc n) t =
      (bit_and (device ps2_ctrl_status_register t) 1 ≡ 0)
      ⊎ Drains n ((t ++ (read ps2_ctrl_status_register ∷ [])) ++ (read ps2_data ∷ []))

  -- when the test is sent again after each byte that asks for it, one of the next `n` bytes does not
  abbrev pub Settles : (n : ℕ) → Trace → Type 0
  Settles zero t = ⊥
  Settles (suc n) t =
      (device ps2_data t ≢ ps2_port1_resend)
      ⊎ ((t' : Trace)
          → ps2_controller_send_cmd device patience ps2_cmd_port1_self_test
              (t ++ (read ps2_data ∷ []))
            ≡ done t'
          → Settles n t')

-- A device that serves the loops of the set-up within `patience` rounds, whatever has gone before.
module _ (device : (port : ℕ) → Trace → ℕ) (patience : ℕ)
    (ready : (t : Trace) → Ready device patience patience t)
    (drains : (t : Trace) → Drains device patience patience t)
    (settles : (t : Trace) → Settles device patience patience t) where
  wait-Adds :
      (n : ℕ) (t : Trace)
      → Ready device patience n t
      → Adds (wait_ready_loop device patience n t) t []
  unfolding wait_ready_loop
  wait-Adds zero t r = absurd r
  wait-Adds (suc n) t r =
      let t₁ = t ++ (read ps2_ctrl_status_register ∷ []) in
      let looked = writes-read t ps2_ctrl_status_register in
      elim (Bool-cases (bit_and (device ps2_ctrl_status_register t) 2 == 0)) [
        | inl room ↦ (t₁, (rw room refl), looked ∙ sym (append-nil (writes t)))
        | inr full ↦
            let later : Ready device patience n t₁ = elim r [
              | inl now ↦ absurd (ground arith)
              | inr later ↦ later
            ] in
            let (t₂, run, add) = wait-Adds n t₁ later in
            (t₂, (rw full run), add ∙ ap (λ w. w ++ []) looked)
      ]

  send-Adds :
      (cmd : ℕ) (t : Trace)
      → Adds (ps2_controller_send_cmd device patience cmd t) t ((ps2_ctrl_cmd_register, cmd) ∷ [])
  unfolding ps2_controller_send_cmd
  send-Adds cmd t =
      Adds-bind (wait_ready_loop device patience patience t) _ t []
        ((ps2_ctrl_cmd_register, cmd) ∷ []) (wait-Adds patience t (ready t))
        λ t₁. (outb ps2_ctrl_cmd_register cmd t₁, refl, writes-outb t₁ ps2_ctrl_cmd_register cmd)

  flush-Adds :
      (n : ℕ) (t : Trace) → Drains device patience n t → Adds (flush_loop device patience n t) t []
  unfolding flush_loop
  flush-Adds zero t d = absurd d
  flush-Adds (suc n) t d =
      let t₁ = t ++ (read ps2_ctrl_status_register ∷ []) in
      let looked = writes-read t ps2_ctrl_status_register in
      elim (Bool-cases (bit_and (device ps2_ctrl_status_register t) 1 == 0)) [
        | inl empty ↦ (t₁, (rw empty refl), looked ∙ sym (append-nil (writes t)))
        | inr full ↦
            let later : Drains device patience n (t₁ ++ (read ps2_data ∷ [])) = elim d [
              | inl now ↦ absurd (ground arith)
              | inr later ↦ later
            ] in
            let (t₂, run, add) = flush-Adds n (t₁ ++ (read ps2_data ∷ [])) later in
            (t₂, (rw full run), add ∙ ap (λ w. w ++ []) (writes-read t₁ ps2_data ∙ looked))
      ]

  self_test-Adds :
      (config : ℕ) (t : Trace)
      → Adds
          (ps2_controller_self_test device patience config t)
          t
          ((ps2_ctrl_cmd_register, 0xaa) ∷ (ps2_data, config) ∷ [])
  unfolding ps2_controller_self_test
  self_test-Adds config t =
      Adds-bind (ps2_controller_send_cmd device patience 0xaa t) _ t
        ((ps2_ctrl_cmd_register, 0xaa) ∷ []) ((ps2_data, config) ∷ []) (send-Adds 0xaa t)
        λ t₁. (
          outb ps2_data config (t₁ ++ (read ps2_data ∷ [])),
          refl,
          writes-outb (t₁ ++ (read ps2_data ∷ [])) ps2_data config
              ∙ ap (λ x. x ++ ((ps2_data, config) ∷ [])) (writes-read t₁ ps2_data),
        )

  resend-Adds :
      (n : ℕ) (t : Trace)
      → Settles device patience n t
      → (again : ℕ) × (again < n)
        × Adds (resend_loop device patience n t) t (replicate again (ps2_ctrl_cmd_register, 0xab))
  unfolding resend_loop
  resend-Adds zero t s = absurd s
  resend-Adds (suc n) t s =
      let t₁ = t ++ (read ps2_data ∷ []) in
      let answered = writes-read t ps2_data in
      elim (Bool-cases (device ps2_data t == ps2_port1_resend)) [
        | inr other ↦
            (0, omega arith, (t₁, (rw other refl), answered ∙ sym (append-nil (writes t))))
        | inl asks ↦
            let (t₂, sent, add) = send-Adds 0xab t₁ in
            let later : Settles device patience n t₂ = elim s [
              | inl now ↦ absurd (ground arith)
              | inr later ↦ later t₂ sent
            ] in
            let (again, less, (t₃, run, adds)) = resend-Adds n t₂ later in
            let more = replicate again (ps2_ctrl_cmd_register, 0xab) in
            (
              suc again,
              omega arith,
              (
                t₃,
                (rw (asks, sent) run),
                adds
                    ∙ ap (λ w. w ++ more)
                        (add ∙ ap (λ w. w ++ ((ps2_ctrl_cmd_register, 0xab) ∷ [])) answered)
                    ∙ append_assoc (writes t) ((ps2_ctrl_cmd_register, 0xab) ∷ []) more,
              ),
            )
      ]

  interface-Adds :
      (t : Trace)
      → (again : ℕ) × (again < patience)
        × Adds
            (ps2_interface_self_test device patience t)
            t
            ((ps2_ctrl_cmd_register, 0xab) ∷ replicate again (ps2_ctrl_cmd_register, 0xab))
  unfolding ps2_interface_self_test
  interface-Adds t =
      let (t₁, sent, add) = send-Adds 0xab t in
      let t₂ = t₁ ++ (read ps2_data ∷ []) in
      let (again, less, (t₃, run, adds)) = resend-Adds patience t₂ (settles t₂) in
      let more = replicate again (ps2_ctrl_cmd_register, 0xab) in
      (
        again,
        less,
        (
          t₃,
          (rw sent run),
          adds
              ∙ ap (λ w. w ++ more) (writes-read t₁ ps2_data ∙ add)
              ∙ append_assoc (writes t) ((ps2_ctrl_cmd_register, 0xab) ∷ []) more,
        ),
      )

  enable-Adds :
      (t : Trace)
      → Adds
          (ps2_controller_send_cmd device patience 0xae t
            >>= ps2_controller_send_cmd device patience 0xa8)
          t
          ((ps2_ctrl_cmd_register, 0xae) ∷ (ps2_ctrl_cmd_register, 0xa8) ∷ [])
  enable-Adds t =
      Adds-bind (ps2_controller_send_cmd device patience 0xae t)
        (ps2_controller_send_cmd device patience 0xa8) t ((ps2_ctrl_cmd_register, 0xae) ∷ [])
        ((ps2_ctrl_cmd_register, 0xa8) ∷ []) (send-Adds 0xae t) (send-Adds 0xa8)

  -- what follows the configuration
  abbrev tests : (config again : ℕ) → List (ℕ × ℕ)
  tests config again =
      (ps2_ctrl_cmd_register, 0xaa)
        ∷ (ps2_data, config)
        ∷ (ps2_ctrl_cmd_register, 0xab)
        ∷ replicate again (ps2_ctrl_cmd_register, 0xab)
      ++ ((ps2_ctrl_cmd_register, 0xae) ∷ (ps2_ctrl_cmd_register, 0xa8) ∷ [])

  tests-Adds :
      (config : ℕ) (t : Trace)
      → (again : ℕ) × (again < patience)
        × Adds
            (ps2_controller_self_test device patience config t >>= λ t₁.
              ps2_interface_self_test device patience t₁ >>= λ t₂.
              ps2_controller_send_cmd device patience 0xae t₂
              >>= ps2_controller_send_cmd device patience 0xa8)
            t
            (tests config again)
  tests-Adds config t =
      let (t₁, run₁, add₁) = self_test-Adds config t in
      let (again, less, (t₂, run₂, add₂)) = interface-Adds t₁ in
      let (t₃, run₃, add₃) = enable-Adds t₂ in
      let a = (ps2_ctrl_cmd_register, 0xaa) ∷ (ps2_data, config) ∷ [] in
      let b = (ps2_ctrl_cmd_register, 0xab) ∷ replicate again (ps2_ctrl_cmd_register, 0xab) in
      let c = (ps2_ctrl_cmd_register, 0xae) ∷ (ps2_ctrl_cmd_register, 0xa8) ∷ [] in
      (
        again,
        less,
        (
          t₃,
          (rw (run₁, run₂) run₃),
          add₃
              ∙ ap (λ w. w ++ c) (add₂ ∙ ap (λ w. w ++ b) add₁ ∙ append_assoc (writes t) a b)
              ∙ append_assoc (writes t) (a ++ b) c,
        ),
      )

  set_up-commands :
      (t : Trace)
      → (t' : Trace) × (asked : Trace) × (again : ℕ) × (set_up_ports device patience t ≡ done t')
        × (again < patience)
        × (writes asked
            ≡ writes t ++ ((ps2_ctrl_cmd_register, 0xad) ∷ (ps2_ctrl_cmd_register, 0xa7) ∷ []))
        × (writes t'
            ≡ writes t ++ commands (new_config (device ps2_cmd_ctrl_read_config_byte asked)) again)
  unfolding set_up_ports ps2_controller_configure
  set_up-commands t =
      let (t₁, run₁, add₁) = send-Adds 0xad t in
      let (t₂, run₂, add₂) = send-Adds 0xa7 t₁ in
      let (t₃, run₃, add₃) = flush-Adds patience t₂ (drains t₂) in
      let config = new_config (device ps2_cmd_ctrl_read_config_byte t₃) in
      let t₄ = t₃ ++ (read ps2_cmd_ctrl_read_config_byte ∷ []) in
      let (t₅, run₅, add₅) = send-Adds 0x60 t₄ in
      let (again, less, (t₆, run₆, add₆)) = tests-Adds config (outb ps2_data config t₅) in
      (
        t₆,
        t₃,
        again,
        (rw (run₁, run₂, run₃, run₅, run₆) refl),
        less,
        add₃
            ∙ append-nil (writes t₂)
            ∙ add₂
            ∙ ap (λ x. x ++ ((ps2_ctrl_cmd_register, 0xa7) ∷ [])) add₁
            ∙ append_assoc (writes t) ((ps2_ctrl_cmd_register, 0xad) ∷ [])
                ((ps2_ctrl_cmd_register, 0xa7) ∷ []),
        gather (writes t) (writes t₁) (writes t₂) (writes t₃) (writes t₅)
            (writes (outb ps2_data config t₅)) (writes t₆) ((ps2_ctrl_cmd_register, 0xad) ∷ [])
            ((ps2_ctrl_cmd_register, 0xa7) ∷ []) ((ps2_ctrl_cmd_register, 0x60) ∷ [])
            ((ps2_data, config) ∷ []) _ add₁ add₂ add₃
            (add₅
              ∙ ap (λ x. x ++ ((ps2_ctrl_cmd_register, 0x60) ∷ []))
                  (writes-read t₃ ps2_cmd_ctrl_read_config_byte))
            (writes-outb t₅ ps2_data config) add₆,
      )

  pub init_devices-commands :
      (q : ScancodeQueue) (t : Trace)
      → (t' : Trace) × (asked : Trace) × (again : ℕ) × (ps2_init_devices device patience q t
          ≡ done (init_scancode_queue q, t'))
        × (again < patience)
        × (writes asked
            ≡ writes t ++ ((ps2_ctrl_cmd_register, 0xad) ∷ (ps2_ctrl_cmd_register, 0xa7) ∷ []))
        × (writes t'
            ≡ writes t ++ commands (new_config (device ps2_cmd_ctrl_read_config_byte asked)) again)
  unfolding ps2_init_devices
  init_devices-commands q t =
      let (t', asked, again, run, less, before, after) = set_up-commands t in
      (t', asked, again, (rw run refl), less, before, after)
