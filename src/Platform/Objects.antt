-- ===== src/Platform/Objects.antt =====
-- Objects that are built by `v[key] = x` and `v[key1][key2] = x`.
use jetpeer_cpp.Base.{
  String, some, true, false, ◌≡◌, ◌∙◌, ap, arith, ◌==◌, string_eq, if◌then◌else◌,
}
use jetpeer_cpp.Platform.{Platform, Value, indexable, at, or_null, set_in}
use jetpeer_cpp.Platform.Laws.{JsonLaws}

module _ ⦃P : Platform⦄ (laws : JsonLaws) where
  open P use {null, set, kind, member, is_member}
  open laws use {kind-null, kind-set, member-set, member-null, is_member-set, is_member-null}

  pub indexable-null : indexable (kind null) ≡ true
  indexable-null = rw kind-null

  pub indexable-set :
      (v x : Value) (k : String) → indexable (kind v) ≡ true → indexable (kind (set v k x)) ≡ true
  indexable-set v x k h = rw (kind-set v x k h)

  pub indexable-set_in :
      (v x : Value) (k j : String)
      → indexable (kind v) ≡ true
      → indexable (kind (set_in v k j x)) ≡ true
  indexable-set_in v x k j h = indexable-set v _ k h

  pub member-set_self :
      (v x : Value) (k : String) → indexable (kind v) ≡ true → member (set v k x) k ≡ some x
  member-set_self v x k h = ground (arith, member-set v x k k h, string_eq.equals_iff k k)

  pub at-set_self : (v x : Value) (k : String) → indexable (kind v) ≡ true → at (set v k x) k ≡ x
  at-set_self v x k h = ap or_null (member-set_self v x k h)

  pub at-null : (k : String) → at null k ≡ null
  at-null k = ap or_null (member-null k)

  -- The member that `v[k][j] = x` writes to.
  pub member-set_in_self :
      (v x : Value) (k j : String)
      → indexable (kind v) ≡ true
      → member (set_in v k j x) k ≡ some (set (at v k) j x)
  member-set_in_self v x k j h = member-set_self v _ k h

  pub member-set_ne :
      (v x : Value) (k j : String)
      → indexable (kind v) ≡ true
      → (k == j) ≡ false
      → member (set v k x) j ≡ member v j
  member-set_ne v x k j h ne = member-set v x k j h ∙ ap (λ b. if b then some x else member v j) ne

  pub is_member-set_ne :
      (v x : Value) (k j : String)
      → indexable (kind v) ≡ true
      → (k == j) ≡ false
      → is_member (set v k x) j ≡ is_member v j
  is_member-set_ne v x k j h ne =
      is_member-set v x k j h ∙ ap (λ b. if b then true else is_member v j) ne

  pub is_member-set_self :
      (v x : Value) (k : String) → indexable (kind v) ≡ true → is_member (set v k x) k ≡ true
  is_member-set_self v x k h = ground (arith, is_member-set v x k k h, string_eq.equals_iff k k)

  pub at-set_in :
      (v x : Value) (k j : String)
      → indexable (kind v) ≡ true
      → at (set_in v k j x) k ≡ set (at v k) j x
  at-set_in v x k j h = at-set_self v _ k h

  pub at-set_ne :
      (v x : Value) (k j : String)
      → indexable (kind v) ≡ true
      → (k == j) ≡ false
      → at (set v k x) j ≡ at v j
  at-set_ne v x k j h ne = ap or_null (member-set_ne v x k j h ne)
