-- ===== src/I2c/Writing.antt =====
-- One call of the handler of a job that writes, from each stage.
use stm32app.Base.{
  ℕ, ◌≡◌, ◌≢◌, ◌≤◌, refl, inl, inr, true, false, not, ◌&&◌, Bool-cases, some, Option-cases,
  some-inj, List, [], ◌∷◌, ◌==◌, arith, none-ne_some, sym, ◌∙◌,
}
use stm32app.Store.{System, Store, release, source_with_options}
use stm32app.Dma.{unregister_dma}
use stm32app.Job.{
  JobSignal, halt, task_continue, task_wait, task_quit_isr, task_loop, task_success, advance_by,
}
use stm32app.I2c.{
  Bus, Call, I2c, peripheral_enable, peripheral_disable, send_start, send_stop, enable_dma,
  disable_dma, dma_tx_stop, send_7bit_address, write_register, dma_tx_start, log, slave_address,
  memory_address, task_setup, take_source, dma_tx_start_for, dma_tx_stop_for, end_sending,
  task_write_data, job_write,
}
use stm32app.I2c.Stages.{
  Stage, began, started, addressed, registered, set_up, sourcing, sourced, sending, sent, finished,
  over, IsAt, IsOnTheWay, chosen, advanced, moves, hands_over, extended, job_phase_at,
  task_phase_at,
}

source-nonzero :
    (y : System) (owner source size : ℕ) (s t : Store) (p : ℕ)
    → source_with_options y owner source size 0 s ≡ some (p, t)
    → (p == 0) ≡ false
unfolding source_with_options
source-nonzero y owner source size s t p e = ground arith

arrives :
    (base : List Call) (a : ℕ) (u v : JobSignal × I2c)
    → some u ≡ some v
    → IsOnTheWay base a (advanced u)
    → IsOnTheWay base a (advanced v)
arrives base a u v e at = rw (some-inj u v e) at at

module _ (y : System) (base : List Call) (a source size : ℕ) (bus : Bus) (quiet : bus.error ≡ false)
    (d : I2c) (r : JobSignal × I2c) (called : job_write y bus d ≡ some r) where
  concluded :
      (v : JobSignal × I2c)
      → job_write y bus d ≡ some v
      → IsOnTheWay base a (advanced v)
      → IsOnTheWay base a (advanced r)
  concluded v e at = arrives base a v r (sym e ∙ called) at

  -- A call that the handler makes again.
  waits :
      (stage : Stage)
      → IsAt base a source size stage d
      → job_phase_at stage ≤ 1
      → task_phase_at stage ≤ 3
      → job_write y bus d ≡ some (task_loop, d)
      → IsOnTheWay base a (advanced r)
  unfolding advance_by
  waits stage at j t e =
      concluded (task_loop, d) e
        (moves task_loop base a source size stage d (rw (at.job_phase) j) (rw (at.task_phase) t)
          at.job_phase at.task_phase at.argument at.calls at.masked)

  began_step : IsAt base a source size began d → IsOnTheWay base a (advanced r)
  unfolding job_write task_setup advance_by
  began_step at =
      concluded (task_continue, log (peripheral_enable ∷ send_start ∷ []) d)
        (rw (quiet, at.job_phase, at.task_phase) refl)
        (moves task_continue base a source size started
          (log (peripheral_enable ∷ send_start ∷ []) d) (omega (arith, at.job_phase))
          (omega (arith, at.task_phase)) at.job_phase (rw (at.task_phase) refl) at.argument
          (extended base [] d.calls (peripheral_enable ∷ send_start ∷ []) at.calls) at.masked)

  started_step : IsAt base a source size started d → IsOnTheWay base a (advanced r)
  unfolding job_write task_setup advance_by
  started_step at = elim (Bool-cases bus.master_mode_select) [
    | inr e ↦
        waits started at (omega arith) (omega arith)
          (rw (quiet, at.job_phase, at.task_phase, e) refl)
    | inl e ↦
        let more : List Call = send_7bit_address (slave_address a) false ∷ [] in
        concluded (task_wait, log more d)
          (rw (quiet, at.job_phase, at.task_phase, e, at.argument) refl)
          (moves task_wait base a source size addressed (log more d) (omega (arith, at.job_phase))
            (omega (arith, at.task_phase)) at.job_phase (rw (at.task_phase) refl) at.argument
            (extended base _ d.calls more at.calls) at.masked)
  ]

  addressed_step : IsAt base a source size addressed d → IsOnTheWay base a (advanced r)
  unfolding job_write task_setup advance_by
  addressed_step at =
      elim (Bool-cases (not bus.transmitter_mode_selected && not bus.receiver_mode_selected)) [
        | inl e ↦
            waits addressed at (omega arith) (omega arith)
              (rw (quiet, at.job_phase, at.task_phase, e) refl)
        | inr e ↦
            let more : List Call = write_register (memory_address a) ∷ [] in
            concluded (task_continue, log more d)
              (rw (quiet, at.job_phase, at.task_phase, e, at.argument) refl)
              (moves task_continue base a source size registered (log more d)
                (omega (arith, at.job_phase)) (omega (arith, at.task_phase)) at.job_phase
                (rw (at.task_phase) refl) at.argument (extended base _ d.calls more at.calls)
                at.masked)
      ]

  registered_step : IsAt base a source size registered d → IsOnTheWay base a (advanced r)
  unfolding job_write task_setup advance_by
  registered_step at = elim (Bool-cases bus.txe) [
    | inr e ↦
        waits registered at (omega arith) (omega arith)
          (rw (quiet, at.job_phase, at.task_phase, e) refl)
    | inl e ↦
        concluded (task_success, d) (rw (quiet, at.job_phase, at.task_phase, e) refl)
          (moves task_success base a source size set_up d (omega (arith, at.job_phase))
            (omega (arith, at.task_phase)) at.job_phase refl at.argument at.calls at.masked)
  ]

  set_up_step : IsAt base a source size set_up d → IsOnTheWay base a (advanced r)
  unfolding job_write task_setup
  set_up_step at =
      concluded (halt, d) (rw (quiet, at.job_phase, at.task_phase) refl)
        (hands_over base a source size set_up sourcing d at (omega arith) refl refl refl refl tt)

  finished_step : IsAt base a source size finished d → IsOnTheWay base a (advanced r)
  unfolding job_write task_write_data
  finished_step at =
      concluded (halt, d) (rw (quiet, at.job_phase, at.task_phase) refl)
        (hands_over base a source size finished over d at (omega arith) refl refl refl refl
          at.masked)

  sourced_step : IsAt base a source size sourced d → IsOnTheWay base a (advanced r)
  unfolding job_write task_write_data dma_tx_start_for advance_by
  sourced_step at =
      let b = d.store.buffers d.source_buffer in
      concluded (task_continue, dma_tx_start_for d) (rw (quiet, at.job_phase, at.task_phase) refl)
        (moves task_continue base a b.payload b.size sending (dma_tx_start_for d)
          (omega (arith, at.job_phase)) (omega (arith, at.task_phase)) at.job_phase
          (rw (at.task_phase) refl) at.argument
          (extended base (chosen a) d.calls (dma_tx_start b.payload b.size ∷ enable_dma ∷ [])
            at.calls)
          at.masked)

  sent_step : IsAt base a source size sent d → IsOnTheWay base a (advanced r)
  unfolding job_write task_write_data advance_by
  sent_step at = elim (Bool-cases (not bus.btf && not bus.txe)) [
    | inl e ↦
        waits sent at (omega arith) (omega arith) (rw (quiet, at.job_phase, at.task_phase, e) refl)
    | inr e ↦
        let more : List Call = send_stop ∷ peripheral_disable ∷ [] in
        concluded (task_success, log more d) (rw (quiet, at.job_phase, at.task_phase, e) refl)
          (moves task_success base a source size finished (log more d) (omega (arith, at.job_phase))
            (omega (arith, at.task_phase)) at.job_phase refl at.argument
            (extended base _ d.calls more at.calls) at.masked)
  ]

  -- The bytes to send are taken: were there none, the code would not come back.
  taken_source :
      (p n : ℕ) (v : JobSignal × I2c)
      → take_source y p n (record d { masked = true }) ≡ some v
      → IsAt base a source size sourcing d
      → IsOnTheWay base a (advanced v)
  unfolding advance_by take_source
  taken_source p n v e at = elim (Option-cases (source_with_options y d.job.actor p n 0 d.store)) [
    | inl gone ↦ absurd (none-ne_some v (rw (gone, take_source) at e))
    | inr ((q, s), given) ↦
        let d' : I2c = record d { masked = true; source_buffer = q; store = s } in
        let some_buffer : (q == 0) ≡ false = source-nonzero y d.job.actor p n d.store s q given in
        arrives base a (task_continue, d') v (rw (given, some_buffer, take_source) at e)
          (moves task_continue base a source size sourced d' (omega (arith, at.job_phase))
            (omega (arith, at.task_phase)) at.job_phase (rw (at.task_phase) refl) at.argument
            at.calls refl)
  ]

  sourcing_step : IsAt base a source size sourcing d → IsOnTheWay base a (advanced r)
  unfolding job_write task_write_data advance_by
  sourcing_step at = elim (Bool-cases bus.interrupted) [
    | inl e ↦
        concluded (task_quit_isr, record d { masked = true })
          (rw (quiet, at.job_phase, at.task_phase, e) refl)
          (moves task_quit_isr base a source size sourcing (record d { masked = true })
            (omega (arith, at.job_phase)) (omega (arith, at.task_phase)) at.job_phase at.task_phase
            at.argument at.calls tt)
    | inr e ↦
        let p = d.job.inciting_event.payload in
        let n = d.job.inciting_event.size in
        let f : job_write y bus d ≡ take_source y p n (record d { masked = true }) =
          rw (quiet, at.job_phase, at.task_phase, e) refl in
        taken_source p n r (sym f ∙ called) at
  ]

  stopped :
      (v : JobSignal × I2c)
      → end_sending y d ≡ some v
      → IsAt base a source size sending d
      → IsOnTheWay base a (advanced v)
  unfolding advance_by end_sending dma_tx_stop_for
  stopped v e at = elim (Option-cases (release y d.source_buffer d.job.actor d.store)) [
    | inl gone ↦ absurd (none-ne_some v (rw (gone, end_sending, dma_tx_stop_for) at e))
    | inr (s, given) ↦
        let more : List Call = dma_tx_stop ∷ disable_dma ∷ [] in
        let d' : I2c = log more (record d {
          transferring = false;
          masked = false;
          store = s;
          streams = unregister_dma d.properties.dma_tx_unit d.properties.dma_tx_stream d.streams;
        }) in
        arrives base a (task_continue, d') v (rw (given, end_sending, dma_tx_stop_for) at e)
          (moves task_continue base a source size sent d' (omega (arith, at.job_phase))
            (omega (arith, at.task_phase)) at.job_phase (rw (at.task_phase) refl) at.argument
            (extended base _ d.calls more at.calls) refl)
  ]

  sending_step : IsAt base a source size sending d → IsOnTheWay base a (advanced r)
  unfolding job_write task_write_data advance_by
  sending_step at = elim (Bool-cases d.transferring) [
    | inr e ↦
        waits sending at (omega arith) (omega arith)
          (rw (quiet, at.job_phase, at.task_phase, e) refl)
    | inl e ↦
        let f : job_write y bus d ≡ end_sending y d =
          rw (quiet, at.job_phase, at.task_phase, e) refl in
        stopped r (sym f ∙ called) at
  ]

  -- Whatever the stage, a job that is not over comes to a stage.
  pub writing_step :
      (stage : Stage)
      → IsAt base a source size stage d
      → d.job.job_phase ≢ 2
      → IsOnTheWay base a (advanced r)
  writing_step began at ne = began_step at
  writing_step started at ne = started_step at
  writing_step addressed at ne = addressed_step at
  writing_step registered at ne = registered_step at
  writing_step set_up at ne = set_up_step at
  writing_step sourcing at ne = sourcing_step at
  writing_step sourced at ne = sourced_step at
  writing_step sending at ne = sending_step at
  writing_step sent at ne = sent_step at
  writing_step finished at ne = finished_step at
  writing_step over at ne = absurd (ne (at.job_phase))
