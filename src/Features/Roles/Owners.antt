-- ===== src/Features/Roles/Owners.antt =====
-- The owners of the roles in the search path of core/features/resolution/ansible.py.
use blitze_cdn_cp.Prelude.{
  String, List, [], ◌∷◌, ◌++◌, Bool, true, false, ◌||◌, Option, none, some, ◌==◌, string_eq, Dict,
  lookup, insert, lookup-insert_self, lookup-insert_other, ◌≡◌, refl, sym, ap, ◌∙◌, subst, inl, inr,
  Bool-cases, arith,
}
use blitze_cdn_cp.Sql.{matches}
use blitze_cdn_cp.Features.Merge.{in_set}
use blitze_cdn_cp.Features.Roles.{
  Disk, Owner, feature_named, Composed, composed, claimed_once, claim_roles, role_names,
}

module _ {A : Type 0} (p : A → Bool) where
  pub matches-snoc : (xs : List A) (x : A) → matches p (xs ++ x ∷ []) ≡ (p x || matches p xs)
  unfolding matches
  matches-snoc [] x = refl
  matches-snoc (y ∷ xs) x = ground (arith, matches-snoc xs x)

pub of_composed : {A : Type 0} {x y : A} → composed x ≡ composed y → x ≡ y
of_composed e = cc e

pub swap_or : (a b c : Bool) → (a || (b || c)) ≡ ((b || a) || c)
swap_or true true c = refl
swap_or true false c = refl
swap_or false true c = refl
swap_or false false c = refl

-- Whether the role has an owner.
unfoldable pub is_owned : Option Owner → Bool
is_owned none = false
is_owned (some owner) = true

unfoldable pub owned : String → Dict String Owner → Bool
unfolding is_owned
owned role owners = is_owned (lookup role owners)

pub owned-insert :
    (role k : String) (v : Owner) (d : Dict String Owner)
    → owned role (insert k v d) ≡ ((k == role) || owned role d)
unfolding is_owned owned lookup
owned-insert role k v d = elim (Bool-cases (k == role)) [
  | inl e ↦
      let same = string_eq.sound k role e in
      rw e (
        subst (λ z. is_owned (lookup z (insert k v d)) ≡ true) same
          (rw (lookup-insert_self k v d) refl))
  | inr e ↦
      rw (e, lookup-insert_other k role v d (λ same. cc (e, string_eq.reflexive k, same))) refl
]

claimed_once-composed :
    (feature role : String) (o : Option Owner) (d : Dict String Owner)
    (rest : Composed (Dict String Owner)) (d' : Dict String Owner)
    → lookup role d ≡ o
    → claimed_once feature role o rest ≡ composed d'
    → (owned role d ≡ false) × (rest ≡ composed d')
unfolding claimed_once owned
claimed_once-composed feature role none d rest d' e h = (rw e refl, h)
claimed_once-composed feature role (some owner) d rest d' e h = absurd (cc h)

-- What the owners are behind a directory, and that none of its roles had an owner before.
pub claim_roles-owned :
    (feature : String) (names : List String) (d d' : Dict String Owner)
    → claim_roles feature names d ≡ composed d'
    → ((role : String) → in_set role names ≡ true → owned role d ≡ false)
      × ((role : String) → owned role d' ≡ (in_set role names || owned role d))
unfolding claim_roles in_set matches
claim_roles-owned feature [] d d' h =
    (λ role there. absurd (cc there), λ role. ap (owned role) (sym (of_composed h)))
claim_roles-owned feature (name ∷ names) d d' h =
    let next = insert name (feature_named feature) d in
    let (free, rest) =
      claimed_once-composed feature name (lookup name d) d (claim_roles feature names next) d' refl
        h in
    let (unowned, after) = claim_roles-owned feature names next d' rest in
    (
      λ role there. elim (Bool-cases (name == role)) [
        | inl e ↦ subst (λ z. owned z d ≡ false) (string_eq.sound name role e) free
        | inr e ↦
            let later : in_set role names ≡ true = rw e at there in
            let both : ((name == role) || owned role d) ≡ false =
              sym (owned-insert role name _ d) ∙ unowned role later in
            rw e at both
      ],
      λ role.
          after role
          ∙ ap (λ b. in_set role names || b) (owned-insert role name _ d)
          ∙ swap_or (in_set role names) (name == role) (owned role d),
    )

-- A role is found where the search path first has it.
unfoldable pub has_role : Disk → String → String → Bool
unfolding role_names in_set
has_role disk role path = in_set role (role_names disk path)
