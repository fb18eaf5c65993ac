-- ===== src/Parser/Total.antt =====
-- A run of the parser ends, and how.
use ray_vault.Base.{
  ℕ, suc, ◌+◌, ◌≤◌, ◌<◌, ◌≡◌, ◌⊎◌, inl, inr, refl, some, arith, sym, ◌∙◌, subst, ◌≢◌,
}
use ray_vault.Arena.{Heap}
use ray_vault.Decoding.{ok}
use ray_vault.Parser.{
  Parser, at_note, at_done, at_error, Status, going, finished, failed, outside, act, run,
}
use ray_vault.Parser.Steps.{
  phase_of, passed, Stepped, goes_on, fails, strays, ends, ended, run-Last,
}

-- The phase is that of the case before the next one.
abbrev pub Phased : Parser → Type 0
Phased p = (k : ℕ) → p.step_index ≡ suc k → p.result.phase ≡ phase_of k

keeps-Phased :
    (h : Heap) (p p' : Parser)
    → p.step_index < 12
    → Phased p
    → act h p.step_index p ≡ (ok tt, p')
    → Phased (record p' { step_index = p'.step_index + 1 })
keeps-Phased h p p' more phased e k at =
    let here : k ≡ p.step_index = omega (arith, (passed h p more e).same_index, at) in
    subst (λ i. p'.result.phase ≡ phase_of i) (sym here) ((passed h p more e).entered refl)

-- The states that a run can return in.
abbrev pub Ended : Status × Parser → Type 0
Ended (going, q) = ⊥
Ended (finished, q) = (q.step_index ≡ 12) × (q.result.phase ≡ at_done)
Ended (failed, q) =
    (q.step_index < 12)
    × ((q.result.phase ≡ at_error) ⊎ ((q.step_index ≡ 11) × (q.result.phase ≡ at_note)))
Ended (outside, q) = q.step_index < 12

Last-Ended :
    (h : Heap) (r : Parser) (out : Status × Parser)
    → Phased r
    → Stepped h r out
    → r.step_index ≤ 12
    → out.0 ≢ going
    → Ended out
Last-Ended h r _ phased (goes_on p' more e) few last = absurd (last refl)
Last-Ended h r _ phased (fails p' more e) few last =
    let index = (passed h r more e).same_index in
    (
      omega (arith, index),
      elim ((passed h r more e).stopped refl) [
        | inl error ↦ inl error
        | inr (late, same) ↦ inr (index ∙ late, same ∙ phased 10 late)
      ],
    )
Last-Ended h r _ phased (strays p' more e) few last = omega (arith, (passed h r more e).same_index)
Last-Ended h r _ phased (ends at) few last = (at, refl)
Last-Ended h r _ phased (ended past) few last = absurd (omega arith)

-- A run of the parser comes to an end, whatever the package, the arena and the heap: it finishes
-- behind its last step in the phase DONE; or it fails in an earlier step in the phase ERROR, except
-- that a failure of the summary leaves the phase NOTE; or an earlier step makes an invalid access,
-- as it can where the heap moves the arena's block.
pub run-Ended : (h : Heap) (p : Parser) → (out : Status × Parser) × (run h p ≡ some out) × Ended out
run-Ended h p =
    let (out, returns, (r, phased, few, stepped, last)) =
      run-Last h Phased (keeps-Phased h) p (λ k at. absurd (omega arith)) in
    (out, returns, Last-Ended h r out phased stepped few last)
