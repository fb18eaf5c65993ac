-- ===== src/Parser/Strict.antt =====
-- What a strict run that finishes has checked.
use ray_vault.Base.{
  ℕ, zero, suc, ◌+◌, ◌≤◌, ◌<◌, ◌≡◌, inl, inr, refl, some, arith, ◌∙◌, subst, true, Bool-cases, ltb,
  ltb→lt, ap, not, ◌==◌, List,
}
use ray_vault.Base.{bit_and}
use ray_vault.Arena.{Heap}
use ray_vault.Decoding.{Result, ok, Decoder}
use ray_vault.Format.{DirEntry}
use ray_vault.Reader.{Reader, find_section, verify_section_crc, section_slice}
use ray_vault.Parser.{
  Parser, Parsed, Phase, is_strict, checks_crc, Status, finished, act, run, past_2, past_3, past_4,
  past_5, past_6, past_7, past_8, past_9, past_10, past_11,
}
use ray_vault.Parser.Sections.{
  Outcome, absent, decoded, refused, broken, invalid, one_section-Outcome,
}
use ray_vault.Parser.Steps.{
  passed, Stepped, goes_on, fails, strays, ends, ended, run-Last, outcome_unique,
}

-- The tags of the cases of the `switch` that read a section; the others have 0.
abbrev pub tag_of : ℕ → ℕ
tag_of (past_2 zero) = 0x4d414e53
tag_of (past_3 zero) = 0x54554f52
tag_of (past_4 zero) = 0x54534e49
tag_of (past_5 zero) = 0x52424c43
tag_of (past_6 zero) = 0x444e4957
tag_of (past_7 zero) = 0x45564157
tag_of (past_8 zero) = 0x4b52414d
tag_of (past_9 zero) = 0x4b4e494c
tag_of (past_10 zero) = 0x45544f4e
tag_of (past_11 zero) = 0x4d4d5553
tag_of _ = 0

-- The section is there, lies in the package, and has the checksum that its entry records.
abbrev pub Sound : Reader → ℕ → Type 0
Sound r tag =
    (e : DirEntry) × (sl : List ℕ) × (find_section r tag 0 ≡ some e)
    × (section_slice r e ≡ some sl)
    × (verify_section_crc r e ≡ true)

checks_crc-other : (p : Parser) (tag : ℕ) → not (tag == 0x4d4d5553) ≡ true → checks_crc p tag ≡ true
checks_crc-other p tag other = ground arith

Outcome-Sound :
    {A : Type 0} {store : A → Parsed → Parsed} {empty : A} {least : ℕ} {h : Heap} {tag : ℕ}
    {ph : Phase} {decode : Heap → List ℕ → Decoder A} {p : Parser}
    {out : Result (Unit {0}) × Parser}
    → is_strict p ≡ true
    → not (tag == 0x4d4d5553) ≡ true
    → Outcome store empty least h tag ph decode p out
    → out.0 ≡ ok tt
    → Sound p.reader tag
Outcome-Sound strict other (absent missing lax) e = cc
Outcome-Sound {tag = tag} {p = p} strict other (decoded e sl x a' found fine mapped d) o =
    (e, sl, found, mapped, ground (arith, fine, strict, checks_crc-other p tag other))
Outcome-Sound strict other refused e = cc
Outcome-Sound strict other (broken sl a' d) e = cc
Outcome-Sound strict other (invalid sl a' d) e = cc

act-Sound :
    (h : Heap) (i : ℕ) (p : Parser)
    → 2 ≤ i
    → i ≤ 10
    → is_strict p ≡ true
    → (act h i p).0 ≡ ok tt
    → Sound p.reader (tag_of i)
unfolding act
act-Sound h zero p lo hi s e = absurd (omega arith)
act-Sound h (suc zero) p lo hi s e = absurd (omega arith)
act-Sound h (past_2 zero) p lo hi s e = Outcome-Sound s refl (one_section-Outcome _ _ _ h _ _ _ p) e
act-Sound h (past_3 zero) p lo hi s e = Outcome-Sound s refl (one_section-Outcome _ _ _ h _ _ _ p) e
act-Sound h (past_4 zero) p lo hi s e = Outcome-Sound s refl (one_section-Outcome _ _ _ h _ _ _ p) e
act-Sound h (past_5 zero) p lo hi s e = Outcome-Sound s refl (one_section-Outcome _ _ _ h _ _ _ p) e
act-Sound h (past_6 zero) p lo hi s e = Outcome-Sound s refl (one_section-Outcome _ _ _ h _ _ _ p) e
act-Sound h (past_7 zero) p lo hi s e = Outcome-Sound s refl (one_section-Outcome _ _ _ h _ _ _ p) e
act-Sound h (past_8 zero) p lo hi s e = Outcome-Sound s refl (one_section-Outcome _ _ _ h _ _ _ p) e
act-Sound h (past_9 zero) p lo hi s e = Outcome-Sound s refl (one_section-Outcome _ _ _ h _ _ _ p) e
act-Sound h (past_10 zero) p lo hi s e =
    Outcome-Sound s refl (one_section-Outcome _ _ _ h _ _ _ p) e
act-Sound h (past_11 n) p lo hi s e = absurd (omega arith)

-- A strict run on the reader `r` that has read the sections of the cases before the next.
abbrev Checked : Reader → ℕ → Parser → Type 0
Checked r flags p =
    (p.reader ≡ r)
    × (p.flags ≡ flags)
    × ((i : ℕ) → 2 ≤ i → i ≤ 10 → i < p.step_index → Sound r (tag_of i))

keeps-Checked :
    (h : Heap) (r : Reader) (flags : ℕ)
    → not (bit_and flags 2 == 0) ≡ true
    → (p p' : Parser) → p.step_index < 12
    → Checked r flags p
    → act h p.step_index p ≡ (ok tt, p')
    → Checked r flags (record p' { step_index = p'.step_index + 1 })
keeps-Checked h r flags strict p p' more (reader, same, checked) e = (
  (passed h p more e).same_reader ∙ reader,
  (passed h p more e).same_flags ∙ same,
  λ i lo hi less. elim (Bool-cases (ltb i p.step_index)) [
    | inl before ↦ checked i lo hi (ltb→lt i p.step_index before)
    | inr here ↦
        let now : p.step_index ≡ i = ground (arith, (passed h p more e).same_index, less, here) in
        subst (λ j. Sound r (tag_of j)) now
          (subst (λ q. Sound q (tag_of p.step_index)) reader
            (act-Sound h p.step_index p (omega (arith, now)) (omega (arith, now)) (rw same strict)
              (ap (λ o. o.0) e)))
  ],
)

Stepped-Sound :
    (h : Heap) (p r : Parser) (out : Status × Parser)
    → Checked p.reader p.flags r
    → Stepped h r out
    → out.0 ≡ finished
    → r.step_index ≤ 12
    → (i : ℕ) → 2 ≤ i
    → i ≤ 10
    → Sound p.reader (tag_of i)
Stepped-Sound h p r _ (reader, same, checked) (goes_on p' more e) f few i lo hi = cc
Stepped-Sound h p r _ (reader, same, checked) (fails p' more e) f few i lo hi = cc
Stepped-Sound h p r _ (reader, same, checked) (strays p' more e) f few i lo hi = cc
Stepped-Sound h p r _ (reader, same, checked) (ends at) f few i lo hi =
    checked i lo hi (omega (arith, at))
Stepped-Sound h p r _ (reader, same, checked) (ended past) f few i lo hi = absurd (omega arith)

-- Where a run with the flag RV_OPEN_STRICT finishes, each of the nine sections from SNAM to NOTE is
-- in the directory, lies in the package, and has the checksum that its entry records, if that is
-- not 0.
pub run-Sound :
    (h : Heap) (p q : Parser)
    → is_strict p ≡ true
    → run h p ≡ some (finished, q)
    → (i : ℕ) → 2 ≤ i
    → i ≤ 10
    → Sound p.reader (tag_of i)
run-Sound h p q strict e i lo hi =
    let (out, returns, (r, checked, few, stepped, last)) =
      run-Last h (Checked p.reader p.flags) (keeps-Checked h p.reader p.flags strict) p
        (refl, refl, λ i lo hi less. absurd (omega arith)) in
    Stepped-Sound h p r out checked stepped (ap (λ o. o.0) (outcome_unique returns e)) few i lo hi
