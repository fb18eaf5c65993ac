-- ===== src/Parser/Steps.antt =====
-- The steps of the parser: what each keeps, and the phase that each leads to.
use ray_vault.Base.{
  ℕ, zero, suc, ◌+◌, ◌≤◌, ◌<◌, ◌≡◌, ◌≢◌, ◌⊎◌, inl, inr, refl, Option, some, ltb, ◌==◌, Bool-cases,
  arith, ltb→lt, ==→eq, subst,
}
use ray_vault.Arena.{Heap}
use ray_vault.Decoding.{Result, ok, err, fault}
use ray_vault.Parser.{
  Parser, Phase, at_header, at_dir, at_snam, at_rout, at_inst, at_clbr, at_wind, at_wave, at_mark,
  at_link, at_note, at_summ, at_done, at_error, enter, act, past_2, past_3, past_4, past_5, past_6,
  past_7, past_8, past_9, past_10, past_11, Status, going, finished, failed, outside, step,
  run_loop, run, after_act, after_step,
}
use ray_vault.Parser.Sections.{
  SummOutcome, no_summary, summarised, unreadable, past_payload, decode_summary-SummOutcome,
  Outcome, absent, decoded, refused, broken, invalid, one_section-Outcome,
}

-- The phase that a successful case of the `switch` leads to.
abbrev pub phase_of : ℕ → Phase
phase_of zero = at_header
phase_of (suc zero) = at_dir
phase_of (past_2 zero) = at_snam
phase_of (past_3 zero) = at_rout
phase_of (past_4 zero) = at_inst
phase_of (past_5 zero) = at_clbr
phase_of (past_6 zero) = at_wind
phase_of (past_7 zero) = at_wave
phase_of (past_8 zero) = at_mark
phase_of (past_9 zero) = at_link
phase_of (past_10 zero) = at_note
phase_of (past_11 zero) = at_summ
phase_of _ = at_done

-- What every case keeps, and the phases after its success and its failure.
pub record Passed (i : ℕ) (p : Parser) (out : Result (Unit {0}) × Parser) : Type 0 where
  pub same_reader : out.1.reader ≡ p.reader
  pub same_flags : out.1.flags ≡ p.flags
  pub same_index : out.1.step_index ≡ p.step_index
  pub entered : out.0 ≡ ok tt → out.1.result.phase ≡ phase_of i
  pub stopped :
      out.0 ≡ err
      → (out.1.result.phase ≡ at_error) ⊎ ((i ≡ 11) × (out.1.result.phase ≡ p.result.phase))

module _ {A : Type 0} (i : ℕ) where
  Outcome-Passed :
      {store : A → _} {empty : A} {least : ℕ} {h : Heap} {tag : ℕ} {decode : _} {p : Parser}
      {out : Result (Unit {0}) × Parser}
      → Outcome store empty least h tag (phase_of i) decode p out
      → Passed i p out
  Outcome-Passed (absent missing lax) = record {
    same_reader = refl;
    same_flags = refl;
    same_index = refl;
    entered = λ e. refl;
    stopped = λ e. cc;
  }
  Outcome-Passed (decoded e sl x a' found fine mapped d) = record {
    same_reader = refl;
    same_flags = refl;
    same_index = refl;
    entered = λ e. refl;
    stopped = λ e. cc;
  }
  Outcome-Passed refused = record {
    same_reader = refl;
    same_flags = refl;
    same_index = refl;
    entered = λ e. cc;
    stopped = λ e. inl refl;
  }
  Outcome-Passed (broken sl a' d) = record {
    same_reader = refl;
    same_flags = refl;
    same_index = refl;
    entered = λ e. cc;
    stopped = λ e. inl refl;
  }
  Outcome-Passed (invalid sl a' d) = record {
    same_reader = refl;
    same_flags = refl;
    same_index = refl;
    entered = λ e. cc;
    stopped = λ e. cc;
  }

SummOutcome-Passed :
    {p : Parser} {out : Result (Unit {0}) × Parser} → SummOutcome p out → Passed 11 p out
SummOutcome-Passed (no_summary missing) = record {
  same_reader = refl;
  same_flags = refl;
  same_index = refl;
  entered = λ e. refl;
  stopped = λ e. cc;
}
SummOutcome-Passed (summarised e sl s a' found mapped d) = record {
  same_reader = refl;
  same_flags = refl;
  same_index = refl;
  entered = λ e. refl;
  stopped = λ e. cc;
}
SummOutcome-Passed unreadable = record {
  same_reader = refl;
  same_flags = refl;
  same_index = refl;
  entered = λ e. cc;
  stopped = λ e. inr (refl, refl);
}
SummOutcome-Passed (past_payload sl a' d) = record {
  same_reader = refl;
  same_flags = refl;
  same_index = refl;
  entered = λ e. cc;
  stopped = λ e. cc;
}

pub act-Passed : (h : Heap) (i : ℕ) (p : Parser) → i < 12 → Passed i p (act h i p)
unfolding act
act-Passed h zero p v = record {
  same_reader = refl;
  same_flags = refl;
  same_index = refl;
  entered = λ e. refl;
  stopped = λ e. cc;
}
act-Passed h (suc zero) p v = record {
  same_reader = refl;
  same_flags = refl;
  same_index = refl;
  entered = λ e. refl;
  stopped = λ e. cc;
}
act-Passed h (past_2 zero) p v = Outcome-Passed 2 (one_section-Outcome _ _ _ h _ at_snam _ p)
act-Passed h (past_3 zero) p v = Outcome-Passed 3 (one_section-Outcome _ _ _ h _ at_rout _ p)
act-Passed h (past_4 zero) p v = Outcome-Passed 4 (one_section-Outcome _ _ _ h _ at_inst _ p)
act-Passed h (past_5 zero) p v = Outcome-Passed 5 (one_section-Outcome _ _ _ h _ at_clbr _ p)
act-Passed h (past_6 zero) p v = Outcome-Passed 6 (one_section-Outcome _ _ _ h _ at_wind _ p)
act-Passed h (past_7 zero) p v = Outcome-Passed 7 (one_section-Outcome _ _ _ h _ at_wave _ p)
act-Passed h (past_8 zero) p v = Outcome-Passed 8 (one_section-Outcome _ _ _ h _ at_mark _ p)
act-Passed h (past_9 zero) p v = Outcome-Passed 9 (one_section-Outcome _ _ _ h _ at_link _ p)
act-Passed h (past_10 zero) p v = Outcome-Passed 10 (one_section-Outcome _ _ _ h _ at_note _ p)
act-Passed h (past_11 zero) p v = SummOutcome-Passed (decode_summary-SummOutcome p)
act-Passed h (past_11 (suc n)) p v = absurd (omega arith)

pub passed :
    (h : Heap) (p : Parser) {out : Result (Unit {0}) × Parser}
    → p.step_index < 12
    → act h p.step_index p ≡ out
    → Passed p.step_index p out
passed h p more e = subst (Passed p.step_index p) e (act-Passed h p.step_index p more)

-- The ways through a step, and those that it ends in.
pub data Stepped (h : Heap) (p : Parser) : Status × Parser → Type 0 where
  goes_on :
      (p' : Parser)
      → p.step_index < 12
      → act h p.step_index p ≡ (ok tt, p')
      → Stepped h p (going, record p' { step_index = p'.step_index + 1 })
  fails :
      (p' : Parser)
      → p.step_index < 12
      → act h p.step_index p ≡ (err, p')
      → Stepped h p (failed, p')
  strays :
      (p' : Parser)
      → p.step_index < 12
      → act h p.step_index p ≡ (fault, p')
      → Stepped h p (outside, p')
  ends : p.step_index ≡ 12 → Stepped h p (finished, enter at_done p)
  ended : 12 < p.step_index → Stepped h p (finished, p)

after_act-Stepped :
    (h : Heap) (p : Parser) (out : Result (Unit {0}) × Parser)
    → p.step_index < 12
    → act h p.step_index p ≡ out
    → Stepped h p (after_act out)
after_act-Stepped h p (ok u, p') more e = goes_on p' more e
after_act-Stepped h p (err, p') more e = fails p' more e
after_act-Stepped h p (fault, p') more e = strays p' more e

pub step-Stepped : (h : Heap) (p : Parser) → Stepped h p (step h p)
unfolding step
step-Stepped h p = elim (Bool-cases (ltb p.step_index 12)) [
  | inl more ↦
      rw (step, more)
        (after_act-Stepped h p (act h p.step_index p) (ltb→lt p.step_index 12 more) refl)
  | inr late ↦ elim (Bool-cases (p.step_index == 12)) [
    | inl last ↦ rw (step, late, last) (ends (==→eq p.step_index 12 last))
    | inr past ↦ rw (step, late, past) (ended (ground arith))
  ]
]

-- A property that the steps keep holds where the last step of a run begins.
module _ (h : Heap) (I : Parser → Type 0)
    (keeps : (p p' : Parser)
      → p.step_index < 12
      → I p
      → act h p.step_index p ≡ (ok tt, p')
      → I (record p' { step_index = p'.step_index + 1 })) where
  abbrev pub Last : Status × Parser → Type 0
  Last out = (r : Parser) × I r × (r.step_index ≤ 12) × Stepped h r out × (out.0 ≢ going)

  -- Enough fuel is one step more than those that are left.
  pub run_loop-Last :
      (fuel : ℕ) (p : Parser)
      → I p
      → p.step_index ≤ 12
      → 12 < p.step_index + fuel
      → (out : Status × Parser) × (run_loop fuel h p ≡ some out) × Last out
  unfolding run_loop
  run_loop-Last zero p inv few enough = absurd (omega arith)
  run_loop-Last (suc fuel) p inv few enough = go (run_loop-Last fuel) (step h p) (step-Stepped h p)
    where
      go :
          ((q : Parser)
            → I q
            → q.step_index ≤ 12
            → 12 < q.step_index + fuel
            → (out' : Status × Parser) × (run_loop fuel h q ≡ some out') × Last out')
          → (out : Status × Parser) → Stepped h p out
          → (out' : Status × Parser) × (after_step (run_loop fuel h) out ≡ some out') × Last out'
      go rest _ (goes_on p' more e) =
          let index = (passed h p more e).same_index in
          rest (record p' { step_index = p'.step_index + 1 }) (keeps p p' more inv e)
            (omega (arith, index)) (omega (arith, index))
      go rest _ (fails p' more e) = ((failed, p'), refl, (p, inv, few, fails p' more e, λ e. cc))
      go rest _ (strays p' more e) = ((outside, p'), refl, (p, inv, few, strays p' more e, λ e. cc))
      go rest _ (ends last) = ((finished, enter at_done p), refl, (p, inv, few, ends last, λ e. cc))
      go rest _ (ended past) = absurd (omega arith)

  pub run-Last :
      (p : Parser)
      → I (record p { step_index = 0 })
      → (out : Status × Parser) × (run h p ≡ some out) × Last out
  unfolding run
  run-Last p inv = run_loop-Last 13 (record p { step_index = 0 }) inv (omega arith) (omega arith)

-- A run has one outcome.
pub outcome_unique :
    {o : Option (Status × Parser)} {out out' : Status × Parser}
    → o ≡ some out
    → o ≡ some out'
    → out ≡ out'
outcome_unique e f = cc
