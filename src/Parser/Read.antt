-- ===== src/Parser/Read.antt =====
-- What a run that finishes has decoded, also where damage is tolerated.
use ray_vault.Base.{
  ℕ, zero, suc, ◌+◌, ◌≤◌, ◌<◌, ◌≡◌, ◌⊎◌, inl, inr, refl, none, some, arith, ◌∙◌, subst, Bool-cases,
  ltb, ltb→lt, ap, List,
}
use ray_vault.Arena.{Arena, Heap}
use ray_vault.Decoding.{Result, ok, Decoder}
use ray_vault.Format.{DirEntry}
use ray_vault.Reader.{Reader, find_section, section_slice}
use ray_vault.Section.{
  decode_rout, decode_inst, decode_clbr, decode_wind, decode_mark, decode_link, decode_note,
  decode_summ,
}
use ray_vault.Section.Blobs.{decode_snam, decode_wave}
use ray_vault.Parser.{
  Parser, Parsed, Phase, Status, finished, act, run, past_2, past_3, past_4, past_5, past_6, past_7,
  past_8, past_9, past_10, past_11,
}
use ray_vault.Parser.Sections.{
  Outcome, absent, decoded, refused, broken, invalid, one_section-Outcome, SummOutcome, no_summary,
  summarised, unreadable, past_payload, decode_summary-SummOutcome,
}
use ray_vault.Parser.Steps.{
  passed, Stepped, goes_on, fails, strays, ends, ended, run-Last, outcome_unique,
}
use ray_vault.Parser.Strict.{tag_of}

-- The decoder succeeds on the payload, with some arena before it.
abbrev pub Decodes : {A : Type 0} → (List ℕ → Decoder A) → List ℕ → Type 0
Decodes {A} decode sl = (a : Arena) × (x : A) × (a' : Arena) × (decode sl a ≡ (ok x, a'))

-- The decoder that belongs to a case of the `switch` succeeds on the payload.
abbrev pub Legible : Heap → ℕ → List ℕ → Type 0
Legible h zero sl = Unit
Legible h (suc zero) sl = Unit
Legible h (past_2 zero) sl = Decodes (decode_snam h) sl
Legible h (past_3 zero) sl = Decodes (decode_rout h) sl
Legible h (past_4 zero) sl = Decodes (decode_inst h) sl
Legible h (past_5 zero) sl = Decodes (decode_clbr h) sl
Legible h (past_6 zero) sl = Decodes (decode_wind h) sl
Legible h (past_7 zero) sl = Decodes (decode_wave h) sl
Legible h (past_8 zero) sl = Decodes (decode_mark h) sl
Legible h (past_9 zero) sl = Decodes (decode_link h) sl
Legible h (past_10 zero) sl = Decodes (decode_note h) sl
Legible h (past_11 n) sl = Decodes decode_summ sl

-- The directory has no section of the tag; or its first one lies in the package and is legible.
abbrev pub ReadBy : Reader → ℕ → (List ℕ → Type 0) → Type 0
ReadBy r tag Fine =
    (find_section r tag 0 ≡ none)
    ⊎ ((e : DirEntry) × (sl : List ℕ) × (find_section r tag 0 ≡ some e)
        × (section_slice r e ≡ some sl)
        × Fine sl)

Outcome-ReadBy :
    {A : Type 0} {store : A → Parsed → Parsed} {empty : A} {least : ℕ} {h : Heap} {tag : ℕ}
    {ph : Phase} {decode : Heap → List ℕ → Decoder A} {p : Parser}
    {out : Result (Unit {0}) × Parser}
    → Outcome store empty least h tag ph decode p out
    → out.0 ≡ ok tt
    → ReadBy p.reader tag (Decodes (decode h))
Outcome-ReadBy (absent missing lax) e = inl missing
Outcome-ReadBy {p = p} (decoded e sl x a' found fine mapped d) o =
    inr (e, sl, found, mapped, (p.arena, x, a', d))
Outcome-ReadBy refused e = cc
Outcome-ReadBy (broken sl a' d) e = cc
Outcome-ReadBy (invalid sl a' d) e = cc

SummOutcome-ReadBy :
    {p : Parser} {out : Result (Unit {0}) × Parser}
    → SummOutcome p out
    → out.0 ≡ ok tt
    → ReadBy p.reader 0x4d4d5553 (Decodes decode_summ)
SummOutcome-ReadBy (no_summary missing) e = inl missing
SummOutcome-ReadBy {p = p} (summarised e sl s a' found mapped d) o =
    inr (e, sl, found, mapped, (p.arena, s, a', d))
SummOutcome-ReadBy unreadable e = cc
SummOutcome-ReadBy (past_payload sl a' d) e = cc

act-ReadBy :
    (h : Heap) (i : ℕ) (p : Parser)
    → 2 ≤ i
    → i ≤ 11
    → (act h i p).0 ≡ ok tt
    → ReadBy p.reader (tag_of i) (Legible h i)
unfolding act
act-ReadBy h zero p lo hi e = absurd (omega arith)
act-ReadBy h (suc zero) p lo hi e = absurd (omega arith)
act-ReadBy h (past_2 zero) p lo hi e = Outcome-ReadBy (one_section-Outcome _ _ _ h _ _ _ p) e
act-ReadBy h (past_3 zero) p lo hi e = Outcome-ReadBy (one_section-Outcome _ _ _ h _ _ _ p) e
act-ReadBy h (past_4 zero) p lo hi e = Outcome-ReadBy (one_section-Outcome _ _ _ h _ _ _ p) e
act-ReadBy h (past_5 zero) p lo hi e = Outcome-ReadBy (one_section-Outcome _ _ _ h _ _ _ p) e
act-ReadBy h (past_6 zero) p lo hi e = Outcome-ReadBy (one_section-Outcome _ _ _ h _ _ _ p) e
act-ReadBy h (past_7 zero) p lo hi e = Outcome-ReadBy (one_section-Outcome _ _ _ h _ _ _ p) e
act-ReadBy h (past_8 zero) p lo hi e = Outcome-ReadBy (one_section-Outcome _ _ _ h _ _ _ p) e
act-ReadBy h (past_9 zero) p lo hi e = Outcome-ReadBy (one_section-Outcome _ _ _ h _ _ _ p) e
act-ReadBy h (past_10 zero) p lo hi e = Outcome-ReadBy (one_section-Outcome _ _ _ h _ _ _ p) e
act-ReadBy h (past_11 zero) p lo hi e = SummOutcome-ReadBy (decode_summary-SummOutcome p) e
act-ReadBy h (past_11 (suc n)) p lo hi e = absurd (omega arith)

-- The sections of the cases before case n are legible, where the directory has them.
abbrev pub ReadBefore : Heap → Reader → ℕ → Type 0
ReadBefore h r n = (i : ℕ) → 2 ≤ i → i ≤ 11 → i < n → ReadBy r (tag_of i) (Legible h i)

-- A run on the reader `r` that has read the sections of the cases before the next.
abbrev Reading : Heap → Reader → Parser → Type 0
Reading h r p = (p.reader ≡ r) × ReadBefore h r p.step_index

keeps-Reading :
    (h : Heap) (r : Reader) (p p' : Parser)
    → p.step_index < 12
    → Reading h r p
    → act h p.step_index p ≡ (ok tt, p')
    → Reading h r (record p' { step_index = p'.step_index + 1 })
keeps-Reading h r p p' more (reader, read) e = (
  (passed h p more e).same_reader ∙ reader,
  λ i lo hi less. elim (Bool-cases (ltb i p.step_index)) [
    | inl before ↦ read i lo hi (ltb→lt i p.step_index before)
    | inr here ↦
        let now : p.step_index ≡ i = ground (arith, (passed h p more e).same_index, less, here) in
        subst (λ j. ReadBy r (tag_of j) (Legible h j)) now
          (subst (λ q. ReadBy q (tag_of p.step_index) (Legible h p.step_index)) reader
            (act-ReadBy h p.step_index p (omega (arith, now)) (omega (arith, now))
              (ap (λ o. o.0) e)))
  ],
)

Stepped-Reading :
    (h : Heap) (r : Reader) (p : Parser) (out : Status × Parser)
    → Reading h r p
    → Stepped h p out
    → out.0 ≡ finished
    → p.step_index ≤ 12
    → ReadBefore h r 12
Stepped-Reading h r p _ (reader, read) (goes_on p' more e) f few i lo hi less = cc
Stepped-Reading h r p _ (reader, read) (fails p' more e) f few i lo hi less = cc
Stepped-Reading h r p _ (reader, read) (strays p' more e) f few i lo hi less = cc
Stepped-Reading h r p _ (reader, read) (ends at) f few i lo hi less =
    read i lo hi (omega (arith, at))
Stepped-Reading h r p _ (reader, read) (ended past) f few i lo hi less = absurd (omega arith)

-- A run that finishes has read each section that the directory has.
pub run-ReadBefore :
    (h : Heap) (p q : Parser) → run h p ≡ some (finished, q) → ReadBefore h p.reader 12
run-ReadBefore h p q e i lo hi less =
    let (out, returns, (r, reading, few, stepped, last)) =
      run-Last h (Reading h p.reader) (keeps-Reading h p.reader) p
        (refl, λ i lo hi less. absurd (omega arith)) in
    Stepped-Reading h p.reader r out reading stepped (ap (λ o. o.0) (outcome_unique returns e)) few
      i lo hi less
