-- ===== src/Parser/Count.antt =====
-- The sections that a run has decoded, and their number.
use ray_vault.Base.{
  ℕ, zero, suc, ◌+◌, ◌^◌, ap₂, ◌≤◌, ◌<◌, ◌≡◌, ◌⊎◌, inl, inr, refl, Option, none, some, arith, sym,
  ◌∙◌, ap, u32, List,
}
use ray_vault.Arena.{Heap}
use ray_vault.Decoding.{Result, ok, Decoder}
use ray_vault.Format.{DirEntry}
use ray_vault.Reader.{Reader, find_section}
use ray_vault.Parser.{
  Parser, Parsed, Phase, Status, finished, act, run, past_2, past_3, past_4, past_5, past_6, past_7,
  past_8, past_9, past_10, past_11,
}
use ray_vault.Parser.Sections.{
  Outcome, absent, decoded, refused, broken, invalid, one_section-Outcome, SummOutcome, no_summary,
  summarised, unreadable, past_payload, decode_summary-SummOutcome,
}
use ray_vault.Parser.Steps.{
  passed, Stepped, goes_on, fails, strays, ends, ended, run-Last, outcome_unique,
}
use ray_vault.Parser.Strict.{tag_of}
use ray_vault.Parser.Read.{ReadBefore, run-ReadBefore}

abbrev pub one_if : Option DirEntry → ℕ
one_if none = 0
one_if (some e) = 1

-- The sections of the cases before case n that the directory has.
abbrev pub present : Reader → ℕ → ℕ
present r zero = 0
present r (suc zero) = 0
present r (past_2 zero) = 0
present r (past_3 n) = present r (past_2 n) + one_if (find_section r (tag_of (past_2 n)) 0)

Counts : Reader → ℕ → ℕ → ℕ → Type 0
Counts r tag seen seen' =
    ((find_section r tag 0 ≡ none) × (seen' ≡ seen))
    ⊎ ((e : DirEntry) × (find_section r tag 0 ≡ some e) × (seen' ≡ u32 (seen + 1)))

Outcome-Counts :
    {A : Type 0} {store : A → Parsed → Parsed} {empty : A} {least : ℕ} {h : Heap} {tag : ℕ}
    {ph : Phase} {decode : Heap → List ℕ → Decoder A} {p : Parser}
    {out : Result (Unit {0}) × Parser}
    → ((x : A) (r : Parsed) → (store x r).sections_seen ≡ r.sections_seen)
    → Outcome store empty least h tag ph decode p out
    → out.0 ≡ ok tt
    → Counts p.reader tag p.result.sections_seen out.1.result.sections_seen
unfolding Counts
Outcome-Counts same (absent missing lax) e = inl (missing, refl)
Outcome-Counts {p = p} same (decoded e sl x a' found fine mapped d) o =
    inr (e, found, ap (λ n. u32 (n + 1)) (same x p.result))
Outcome-Counts same refused e = cc
Outcome-Counts same (broken sl a' d) e = cc
Outcome-Counts same (invalid sl a' d) e = cc

SummOutcome-Counts :
    {p : Parser} {out : Result (Unit {0}) × Parser}
    → SummOutcome p out
    → out.0 ≡ ok tt
    → Counts p.reader 0x4d4d5553 p.result.sections_seen out.1.result.sections_seen
unfolding Counts
SummOutcome-Counts (no_summary missing) e = inl (missing, refl)
SummOutcome-Counts (summarised e sl s a' found mapped d) o = inr (e, found, refl)
SummOutcome-Counts unreadable e = cc
SummOutcome-Counts (past_payload sl a' d) e = cc

Counts-one_if :
    (r : Reader) (tag start n seen seen' : ℕ)
    → Counts r tag seen seen'
    → seen ≡ u32 (start + n)
    → seen' ≡ u32 (start + (n + one_if (find_section r tag 0)))
unfolding Counts
Counts-one_if r tag start n seen seen' (inl (missing, same)) at =
    rw missing (omega (arith, same, at))
Counts-one_if r tag start n seen seen' (inr (e, found, more)) at =
    rw found (omega (arith, more, at))

act-present :
    (h : Heap) (i : ℕ) (p : Parser) (start : ℕ)
    → i < 12
    → p.result.sections_seen ≡ u32 (start + present p.reader i)
    → (act h i p).0 ≡ ok tt
    → (act h i p).1.result.sections_seen ≡ u32 (start + present p.reader (i + 1))
unfolding act
act-present h zero p start v at e = at
act-present h (suc zero) p start v at e = at
act-present h (past_2 zero) p start v at e =
    Counts-one_if p.reader (tag_of 2) start _ _ _
      (Outcome-Counts (λ x r. refl) (one_section-Outcome _ _ _ h _ _ _ p) e) at
act-present h (past_3 zero) p start v at e =
    Counts-one_if p.reader (tag_of 3) start _ _ _
      (Outcome-Counts (λ x r. refl) (one_section-Outcome _ _ _ h _ _ _ p) e) at
act-present h (past_4 zero) p start v at e =
    Counts-one_if p.reader (tag_of 4) start _ _ _
      (Outcome-Counts (λ x r. refl) (one_section-Outcome _ _ _ h _ _ _ p) e) at
act-present h (past_5 zero) p start v at e =
    Counts-one_if p.reader (tag_of 5) start _ _ _
      (Outcome-Counts (λ x r. refl) (one_section-Outcome _ _ _ h _ _ _ p) e) at
act-present h (past_6 zero) p start v at e =
    Counts-one_if p.reader (tag_of 6) start _ _ _
      (Outcome-Counts (λ x r. refl) (one_section-Outcome _ _ _ h _ _ _ p) e) at
act-present h (past_7 zero) p start v at e =
    Counts-one_if p.reader (tag_of 7) start _ _ _
      (Outcome-Counts (λ x r. refl) (one_section-Outcome _ _ _ h _ _ _ p) e) at
act-present h (past_8 zero) p start v at e =
    Counts-one_if p.reader (tag_of 8) start _ _ _
      (Outcome-Counts (λ x r. refl) (one_section-Outcome _ _ _ h _ _ _ p) e) at
act-present h (past_9 zero) p start v at e =
    Counts-one_if p.reader (tag_of 9) start _ _ _
      (Outcome-Counts (λ x r. refl) (one_section-Outcome _ _ _ h _ _ _ p) e) at
act-present h (past_10 zero) p start v at e =
    Counts-one_if p.reader (tag_of 10) start _ _ _
      (Outcome-Counts (λ x r. refl) (one_section-Outcome _ _ _ h _ _ _ p) e) at
act-present h (past_11 zero) p start v at e =
    Counts-one_if p.reader (tag_of 11) start _ _ _
      (SummOutcome-Counts (decode_summary-SummOutcome p) e) at
act-present h (past_11 (suc n)) p start v at e = absurd (omega arith)

-- A run on the reader `r` that has counted the sections so far.
abbrev Counting : Reader → ℕ → Parser → Type 0
Counting r start p =
    (p.reader ≡ r) × (p.result.sections_seen ≡ u32 (start + present r p.step_index))

keeps-Counting :
    (h : Heap) (r : Reader) (start : ℕ) (p p' : Parser)
    → p.step_index < 12
    → Counting r start p
    → act h p.step_index p ≡ (ok tt, p')
    → Counting r start (record p' { step_index = p'.step_index + 1 })
keeps-Counting h r start p p' more (reader, at) e =
    let before : p.result.sections_seen ≡ u32 (start + present p.reader p.step_index) =
      rw reader at in
    let counted = act-present h p.step_index p start more before (ap (λ o. o.0) e) in
    (
      (passed h p more e).same_reader ∙ reader,
      ap (λ o. o.1.result.sections_seen) (sym e)
          ∙ counted
          ∙ ap₂ (λ q i. u32 (start + present q (i + 1))) reader
              (sym (passed h p more e).same_index),
    )

Stepped-present :
    (h : Heap) (p r : Parser) (start : ℕ) (out : Status × Parser)
    → Counting p.reader start r
    → Stepped h r out
    → out.0 ≡ finished
    → r.step_index ≤ 12
    → out.1.result.sections_seen ≡ u32 (start + present p.reader 12)
Stepped-present h p r start _ (reader, at) (goes_on p' more e) f few = cc
Stepped-present h p r start _ (reader, at) (fails p' more e) f few = cc
Stepped-present h p r start _ (reader, at) (strays p' more e) f few = cc
Stepped-present h p r start _ (reader, at) (ends last) f few =
    at ∙ ap (λ i. u32 (start + present p.reader i)) last
Stepped-present h p r start _ (reader, at) (ended past) f few = absurd (omega arith)

-- Where a run finishes, strict or not: for each of the ten kinds of section that the directory has an
-- entry for, its first section lies in the package and its decoder succeeds on the bytes, with some
-- arena before it; and the run has added to the count of sections, in 32 bits, the number of these
-- kinds.
pub run-present :
    (h : Heap) (p q : Parser)
    → p.result.sections_seen < 2 ^ 32
    → run h p ≡ some (finished, q)
    → ReadBefore h p.reader 12
      × (q.result.sections_seen ≡ u32 (p.result.sections_seen + present p.reader 12))
run-present h p q small e =
    let (out, returns, (r, counting, few, stepped, last)) =
      run-Last h (Counting p.reader p.result.sections_seen)
        (keeps-Counting h p.reader p.result.sections_seen) p (refl, omega (arith, small)) in
    let same = outcome_unique returns e in
    (
      run-ReadBefore h p q e,
      ap (λ o. o.1.result.sections_seen) (sym same)
          ∙ Stepped-present h p r p.result.sections_seen out counting stepped (ap (λ o. o.0) same)
              few,
    )
