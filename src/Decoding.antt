-- ===== src/Decoding.antt =====
-- The outcome of a decoder of src/internal/rv_section.c, and the arena that it allocates from.
-- `err` is the status -1. `fault` is no status: a read past the payload, or a use of a pointer
-- into a block that the arena has given up.
use ray_vault.Base.{
  subst, sym, true, false, ℕ, arith, Option-cases, Bool, ◌==◌, Option, none, some, if◌then◌else◌,
  ◌≡◌, ◌⊎◌, inl, inr, ◌≢◌, refl,
}
use ray_vault.Arena.{Arena, Heap, calloc}

pub data Result {ℓ} (A : Type ℓ) : Type ℓ where
  ok : A → Result A
  err : Result A
  fault : Result A

abbrev pub Decoder : Type 0 → Type 0
Decoder A = Arena → Result A × Arena

-- What follows an outcome: a failure ends the decoder.
abbrev pub next : {A B : Type 0} → Result A × Arena → (A → Decoder B) → Result B × Arena
next (ok x, a) f = f x a
next (err, a) f = (err, a)
next (fault, a) f = (fault, a)

infixl 5 ◌>>=◌ ◌>>◌
abbrev pub ◌>>=◌ : {A B : Type 0} → Decoder A → (A → Decoder B) → Decoder B
◌>>=◌ m f a = next (m a) f

abbrev pub ◌>>◌ : {B : Type 0} → Decoder (Unit {0}) → Decoder B → Decoder B
m >> k = m >>= λ _. k

abbrev pub done : {A : Type 0} → A → Decoder A
done x a = (ok x, a)

-- `if (test) return -1;`
abbrev pub fail_if : Bool → Decoder (Unit {0})
fail_if test a = (if test then err else ok tt, a)

-- A read of the payload.
abbrev pub load : {A : Type 0} → Option A → Decoder A
load none a = (fault, a)
load (some x) a = (ok x, a)

abbrev pub same_block : Option ℕ → Option ℕ → Bool
same_block none none = true
same_block (some a) (some b) = a == b
same_block _ _ = false

-- The block that an array allocated now lies in.
abbrev pub current : Decoder (Option ℕ)
current a = (ok a.base, a)

-- An access to an array in the block that the arena had when it was allocated.
unfoldable pub touch : Option ℕ → Decoder (Unit {0})
touch block a = (if same_block block a.base then ok tt else fault, a)

-- `items = rv_arena_calloc(a, count, size, align); if (!items && count) return -1;`
unfoldable pub new_items : Heap → ℕ → ℕ → ℕ → Decoder (Unit {0})
new_items h count size align a =
    let (items, a') = calloc h a count size align in
    elim items [ some p ↦ (ok tt, a') | none ↦ if count == 0 then (ok tt, a') else (err, a') ]

-- An array of the current block is there.
pub same_block_self : (block : Option ℕ) → same_block block block ≡ true
same_block_self none = refl
same_block_self (some a) = ground arith

-- What a successful step leads to.
pub >>=-eq-ok :
    {A B : Type 0} (m : Decoder A) (f : A → Decoder B) (a : Arena) (b : B) (a' : Arena)
    → (m >>= f) a ≡ (ok b, a')
    → (x : A) × (a₁ : Arena) × (m a ≡ (ok x, a₁)) × (f x a₁ ≡ (ok b, a'))
>>=-eq-ok {A} {B} m f a b a' e = go (m a) refl e
  where
    go :
        (r : Result A × Arena)
        → m a ≡ r
        → next r f ≡ (ok b, a')
        → (x : A) × (a₁ : Arena) × (m a ≡ (ok x, a₁)) × (f x a₁ ≡ (ok b, a'))
    go (ok x, a₁) h e' = (x, a₁, h, e')
    go (err, a₁) h e' = cc
    go (fault, a₁) h e' = cc

-- A decoder that makes no invalid access from any arena that satisfies `P`, which it keeps.
pub record Safe {A : Type 0} (P : Arena → Type 0) (m : Decoder A) : Type 0 where
  pub runs : (a : Arena) → P a → ((m a).0 ≢ fault) × P (m a).1

module _ (P : Arena → Type 0) where
  pub done-Safe : {A : Type 0} (x : A) → Safe P (done x)
  done-Safe x = record { runs = λ a p. (λ e. cc, p) }

  pub load-Safe : {A : Type 0} (o : Option A) → o ≢ none → Safe P (load o)
  load-Safe none h = absurd (h refl)
  load-Safe (some x) h = record { runs = λ a p. (λ e. cc, p) }

  pub fail_if-Safe :
      {A : Type 0} (test : Bool) (k : Decoder A)
      → (test ≡ false → Safe P k)
      → Safe P (fail_if test >> k)
  fail_if-Safe true k h = record { runs = λ a p. (λ e. cc, p) }
  fail_if-Safe false k h = record { runs = λ a p. (h refl).runs a p }

  next-Safe :
      {A B : Type 0} (f : A → Decoder B) (r : Result A × Arena)
      → ((x : A) → Safe P (f x))
      → (r.0 ≢ fault) × P r.1
      → ((next r f).0 ≢ fault) × P (next r f).1
  next-Safe f (ok x, a') hf (h, p') = (hf x).runs a' p'
  next-Safe f (err, a') hf (h, p') = (λ e. cc, p')
  next-Safe f (fault, a') hf (h, p') = absurd (h refl)

  pub >>=-Safe :
      {A B : Type 0} (m : Decoder A) (f : A → Decoder B)
      → Safe P m
      → ((x : A) → Safe P (f x))
      → Safe P (m >>= f)
  >>=-Safe m f hm hf = record { runs = λ a p. next-Safe f (m a) hf (hm.runs a p) }

pub touch-Safe : (block : Option ℕ) → Safe (λ a. a.base ≡ block) (touch block)
unfolding touch
touch-Safe block = record { runs = λ a at. (λ e. ground (arith, at, e, same_block_self block), at) }

pub current-Safe :
    {B : Type 0} (block : Option ℕ) (f : Option ℕ → Decoder B)
    → Safe (λ a. a.base ≡ block) (f block)
    → Safe (λ a. a.base ≡ block) (current >>= f)
current-Safe block f safe = record {
  runs =
      λ a at. subst (λ b. ((f b a).0 ≢ fault) × ((f b a).1.base ≡ block)) (sym at) (safe.runs a at);
}

pub new_items-Safe :
    (P : Arena → Type 0) (h : Heap) (count size align : ℕ)
    → ((a : Arena) → P a → P (calloc h a count size align).1)
    → Safe P (new_items h count size align)
unfolding new_items
new_items-Safe P h count size align keep = record {
  runs = λ a p. ground (arith, p, keep a p, Option-cases (calloc h a count size align).0);
}

-- A decoder whose values satisfy `Q`.
pub record Gives {A : Type 0} (Q : A → Type 0) (m : Decoder A) : Type 0 where
  pub given : (a : Arena) (x : A) (a' : Arena) → m a ≡ (ok x, a') → Q x

pub done-Gives : {A : Type 0} (Q : A → Type 0) (x : A) → Q x → Gives Q (done x)
done-Gives Q x q = record { given = λ a y a' e. let same : x ≡ y = cc in subst Q same q }

pub any-Gives : {A : Type 0} (m : Decoder A) → Gives (λ x. Unit) m
any-Gives m = record { given = λ a x a' e. tt }

pub >>=-Gives :
    {A B : Type 0} (R : A → Type 0) (Q : B → Type 0) (m : Decoder A) (f : A → Decoder B)
    → Gives R m
    → ((x : A) → R x → Gives Q (f x))
    → Gives Q (m >>= f)
>>=-Gives R Q m f hm hf = record {
  given = λ a y a' e.
      let (x, a₁, first, second) = >>=-eq-ok m f a y a' e in
      (hf x (hm.given a x a₁ first)).given a₁ y a' second;
}

pub fail_if-Gives :
    {A : Type 0} (Q : A → Type 0) (test : Bool) (k : Decoder A)
    → (test ≡ false → Gives Q k)
    → Gives Q (fail_if test >> k)
fail_if-Gives Q true k h = record { given = λ a x a' e. cc }
fail_if-Gives Q false k h = record { given = λ a x a' e. (h refl).given a x a' e }

pub weaken-Gives :
    {A : Type 0} (R Q : A → Type 0) (m : Decoder A) → Gives R m → ((x : A) → R x → Q x) → Gives Q m
weaken-Gives R Q m h sub = record { given = λ a x a' e. sub x (h.given a x a' e) }

-- What a step that succeeds gave back.
pub done-ok : {A : Type 0} (x y : A) (a a' : Arena) → done x a ≡ (ok y, a') → x ≡ y
done-ok x y a a' e = cc

pub when-ok :
    {A : Type 0} (b : Bool) (x : A) (d : Decoder A) (a : Arena) (y : A) (a' : Arena)
    → (if b then done x else d) a ≡ (ok y, a')
    → ((b ≡ true) × (x ≡ y)) ⊎ (d a ≡ (ok y, a'))
when-ok true x d a y a' e = inl (refl, done-ok x y a a' e)
when-ok false x d a y a' e = inr e
