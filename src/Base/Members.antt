-- ===== src/Base/Members.antt =====
-- Membership in filtered, mapped, joined and permuted lists.
use mathlib.Core.Path.{◌≡◌, refl, sym, subst, ◌∙◌}
use mathlib.Core.Logic.{inl, inr}
use mathlib.Core.Bool.{Bool, true}
use mathlib.Core.List.{List, [], ◌∷◌, Memᴰ, Permᴰ}
use beta.Base.Tests.{Bool-cases, if◌then◌else◌}
use beta.Base.Lists.{keep_if}

module _ {ℓ} {A : Type ℓ} where
  pub cast : {a b : A} {l : List A} → a ≡ b → Memᴰ b l → Memᴰ a l
  cast e (Memᴰ.head f) = Memᴰ.head (e ∙ f)
  cast e (Memᴰ.tail m) = Memᴰ.tail (cast e m)

  pub mem-perm : {a : A} {xs ys : List A} → Permᴰ xs ys → Memᴰ a xs → Memᴰ a ys
  mem-perm Permᴰ.nil m = elim m [ ]
  mem-perm (Permᴰ.cons e p) (Memᴰ.head f) = Memᴰ.head (f ∙ e)
  mem-perm (Permᴰ.cons e p) (Memᴰ.tail m) = Memᴰ.tail (mem-perm p m)
  mem-perm (Permᴰ.swap e f) (Memᴰ.head g) = Memᴰ.tail (Memᴰ.head (g ∙ e))
  mem-perm (Permᴰ.swap e f) (Memᴰ.tail (Memᴰ.head g)) = Memᴰ.head (g ∙ f)
  mem-perm (Permᴰ.swap e f) (Memᴰ.tail (Memᴰ.tail m)) = Memᴰ.tail (Memᴰ.tail m)
  mem-perm (Permᴰ.trans p q) m = mem-perm q (mem-perm p m)

  pub mem-perm_back : {a : A} {xs ys : List A} → Permᴰ xs ys → Memᴰ a ys → Memᴰ a xs
  mem-perm_back Permᴰ.nil m = elim m [ ]
  mem-perm_back (Permᴰ.cons e p) (Memᴰ.head f) = Memᴰ.head (f ∙ sym e)
  mem-perm_back (Permᴰ.cons e p) (Memᴰ.tail m) = Memᴰ.tail (mem-perm_back p m)
  mem-perm_back (Permᴰ.swap e f) (Memᴰ.head g) = Memᴰ.tail (Memᴰ.head (g ∙ sym f))
  mem-perm_back (Permᴰ.swap e f) (Memᴰ.tail (Memᴰ.head g)) = Memᴰ.head (g ∙ sym e)
  mem-perm_back (Permᴰ.swap e f) (Memᴰ.tail (Memᴰ.tail m)) = Memᴰ.tail (Memᴰ.tail m)
  mem-perm_back (Permᴰ.trans p q) m = mem-perm_back p (mem-perm_back q m)

module _ {ℓ} {A : Type ℓ} (p : A → Bool) where
  pub mem-keep_if : {a : A} (l : List A) → Memᴰ a (keep_if p l) → Memᴰ a l × (p a ≡ true)
  unfolding keep_if
  mem-keep_if [] m = elim m [ ]
  mem-keep_if {a} (x ∷ l) m = elim (Bool-cases (p x)) [
    | inl kept ↦ elim (subst (λ b. Memᴰ a (if b then x ∷ keep_if p l else keep_if p l)) kept m) [
      | Memᴰ.head e ↦ (Memᴰ.head e, subst (λ y. p y ≡ true) (sym e) kept)
      | Memᴰ.tail k ↦ let (below, holds) = mem-keep_if l k in (Memᴰ.tail below, holds)
    ]
    | inr dropped ↦
        let (below, holds) =
          mem-keep_if l
            (subst (λ b. Memᴰ a (if b then x ∷ keep_if p l else keep_if p l)) dropped m) in
        (Memᴰ.tail below, holds)
  ]

  pub keep_if-mem : {a : A} (l : List A) → Memᴰ a l → p a ≡ true → Memᴰ a (keep_if p l)
  unfolding keep_if
  keep_if-mem [] m h = elim m [ ]
  keep_if-mem (x ∷ l) (Memᴰ.head e) h = rw (← e) (rw h (Memᴰ.head refl))
  keep_if-mem {a} (x ∷ l) (Memᴰ.tail m) h = elim (Bool-cases (p x)) [
    | inl kept ↦ rw kept (Memᴰ.tail (keep_if-mem l m h))
    | inr dropped ↦ rw dropped (keep_if-mem l m h)
  ]
