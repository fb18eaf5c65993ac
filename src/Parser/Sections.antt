-- ===== src/Parser/Sections.antt =====
-- What the step of one section does, as a relation: each constructor is a way through
-- `rv_parser_one_section`.
use ray_vault.Base.{
  ℕ, ◌≡◌, inl, inr, refl, true, false, not, ◌&&◌, ltb, if◌then◌else◌, none, some, List, length,
  Option-cases, Bool-cases,
}
use ray_vault.Arena.{Arena, Heap}
use ray_vault.Decoding.{Result, ok, err, fault, Decoder}
use ray_vault.Format.{DirEntry}
use ray_vault.Reader.{find_section, verify_section_crc, section_slice}
use ray_vault.Parser.{
  Parser, Parsed, Phase, at_error, enter, accept, is_strict, checks_crc, after_decode, one_section,
  at_summ, after_summ, decode_summary,
}
use ray_vault.Records.{SummRec}
use ray_vault.Section.{decode_summ}

module _ {A : Type 0} (store : A → Parsed → Parsed) (empty : A) (least : ℕ) (h : Heap) (tag : ℕ)
    (ph : Phase) (decode : Heap → List ℕ → Decoder A) (p : Parser) where
  -- The tests that a damaged section passes: it is not checked, it is intact, or damage is tolerated.
  abbrev pub Tolerated : DirEntry → Type 0
  Tolerated e = (checks_crc p tag && not (verify_section_crc p.reader e) && is_strict p) ≡ false

  pub data Outcome : Result (Unit {0}) × Parser → Type 0 where
    absent : find_section p.reader tag 0 ≡ none → is_strict p ≡ false → Outcome (ok tt, enter ph p)
    decoded :
        (e : DirEntry) (sl : List ℕ) (x : A) (a' : Arena)
        → find_section p.reader tag 0 ≡ some e
        → Tolerated e
        → section_slice p.reader e ≡ some sl
        → decode h sl p.arena ≡ (ok x, a')
        → Outcome (ok tt, accept ph (store x p.result) (record p { arena = a' }))
    refused : Outcome (err, enter at_error p)
    broken :
        (sl : List ℕ) (a' : Arena)
        → decode h sl p.arena ≡ (err, a')
        → Outcome (
          err,
          enter at_error (record p {
            arena = a';
            result = if ltb (length sl) least then p.result else store empty p.result;
          }),
        )
    invalid :
        (sl : List ℕ) (a' : Arena)
        → decode h sl p.arena ≡ (fault, a')
        → Outcome (fault, record p { arena = a' })

  after_decode-Outcome :
      (e : DirEntry) (sl : List ℕ) (r : Result A × Arena)
      → find_section p.reader tag 0 ≡ some e
      → Tolerated e
      → section_slice p.reader e ≡ some sl
      → decode h sl p.arena ≡ r
      → Outcome (after_decode store empty least ph sl p r)
  unfolding after_decode
  after_decode-Outcome e sl (ok x, a') found fine mapped d = decoded e sl x a' found fine mapped d
  after_decode-Outcome e sl (err, a') found fine mapped d = broken sl a' d
  after_decode-Outcome e sl (fault, a') found fine mapped d = invalid sl a' d

  -- Each run of the step is one of the relation.
  pub one_section-Outcome : Outcome (one_section store empty least h tag ph decode p)
  unfolding one_section
  one_section-Outcome = elim (Option-cases (find_section p.reader tag 0)) [
    | inl missing ↦ elim (Bool-cases (is_strict p)) [
      | inl strict ↦ rw (one_section, missing, strict) refused
      | inr lax ↦ rw (one_section, missing, lax) (absent missing lax)
    ]
    | inr (e, found) ↦
        elim (Bool-cases (checks_crc p tag && not (verify_section_crc p.reader e) && is_strict p)) [
          | inl damaged ↦ rw (one_section, found, damaged) refused
          | inr fine ↦ elim (Option-cases (section_slice p.reader e)) [
            | inl outside ↦ rw (one_section, found, fine, outside) refused
            | inr (sl, mapped) ↦
                rw (one_section, found, fine, mapped)
                  (after_decode-Outcome e sl (decode h sl p.arena) found fine mapped refl)
          ]
        ]
  ]

-- The ways through `rv_parser_decode_summ`, which leaves the phase alone where it fails.
pub data SummOutcome (p : Parser) : Result (Unit {0}) × Parser → Type 0 where
  no_summary : find_section p.reader 0x4d4d5553 0 ≡ none → SummOutcome p (ok tt, enter at_summ p)
  summarised :
      (e : DirEntry) (sl : List ℕ) (s : SummRec) (a' : Arena)
      → find_section p.reader 0x4d4d5553 0 ≡ some e
      → section_slice p.reader e ≡ some sl
      → decode_summ sl p.arena ≡ (ok s, a')
      → SummOutcome p (ok tt, accept at_summ (record p.result { summ = s; has_summ = true }) p)
  unreadable : SummOutcome p (err, p)
  past_payload :
      (sl : List ℕ) (a' : Arena) → decode_summ sl p.arena ≡ (fault, a') → SummOutcome p (fault, p)

pub decode_summary-SummOutcome : (p : Parser) → SummOutcome p (decode_summary p)
unfolding decode_summary
decode_summary-SummOutcome p = elim (Option-cases (find_section p.reader 0x4d4d5553 0)) [
  | inl missing ↦ rw (decode_summary, missing) (no_summary missing)
  | inr (e, found) ↦ elim (Option-cases (section_slice p.reader e)) [
    | inl outside ↦ rw (decode_summary, found, outside) unreadable
    | inr (sl, mapped) ↦
        rw (decode_summary, found, mapped)
          (after_summ-SummOutcome e sl found mapped (decode_summ sl p.arena) refl)
  ]
]
  where
    after_summ-SummOutcome :
        (e : DirEntry) (sl : List ℕ)
        → find_section p.reader 0x4d4d5553 0 ≡ some e
        → section_slice p.reader e ≡ some sl
        → (r : Result SummRec × Arena) → decode_summ sl p.arena ≡ r
        → SummOutcome p (after_summ p r)
    after_summ-SummOutcome e sl found mapped (ok s, a') d = summarised e sl s a' found mapped d
    after_summ-SummOutcome e sl found mapped (err, a') d = unreadable
    after_summ-SummOutcome e sl found mapped (fault, a') d = past_payload sl a' d
