-- ===== src/Gateway/Discovery/Merge/Instances.antt =====
-- The instances of a cluster: their addresses, and what a name leaves of one.
use persys_cloud.Prelude.{
  ℕ, zero, suc, String, ◌≡◌, refl, ◌∙◌, Bool, true, false, not, ◌&&◌, ◌||◌, nat_eq, if◌then◌else◌,
  List, [], ◌∷◌, ◌++◌, any, ◌==◌, arith, eq_iff,
}
use persys_cloud.Gateway.Pool.{SchedulerInstance}
use persys_cloud.Gateway.Discovery.Merge.{name_at}

abbrev pub has_address : String → List SchedulerInstance → Bool
has_address a l = any (λ s. s.address == a) l

-- No two instances share an address.
abbrev pub Distinct : List SchedulerInstance → Type 0
Distinct [] = Unit
Distinct (s ∷ l) = (has_address s.address l ≡ false) × Distinct l

abbrev same_bool : Bool → Bool → Bool
same_bool a b = if a then b else not b

-- The same instance; one without an id may have been given one.
unfoldable pub same_instance : SchedulerInstance → SchedulerInstance → Bool
same_instance s t =
    t.address == s.address
    && (same_bool t.is_leader s.is_leader
        && (same_bool t.healthy s.healthy
            && (nat_eq t.last_seen s.last_seen && (t.id == s.id || s.id == ""))))

abbrev pub has_instance : SchedulerInstance → List SchedulerInstance → Bool
has_instance s l = any (same_instance s) l

pub same_instance-named :
    (s t : SchedulerInstance) (name : String)
    → (t.id == "") ≡ true
    → same_instance s t ≡ true
    → same_instance s (record t { id = name }) ≡ true
unfolding same_instance
same_instance-named s t name blank h =
    ground (arith, blank, h, eq_iff t.id s.id, eq_iff t.id "", eq_iff s.id "")

pub has_instance-name_at :
    (s : SchedulerInstance) (i : ℕ) (name : String) (l : List SchedulerInstance)
    → has_instance s l ≡ true
    → has_instance s (name_at i name l) ≡ true
unfolding name_at
has_instance-name_at s i name [] h = h
has_instance-name_at s zero name (t ∷ l) h = ground (arith, h, same_instance-named s t name)
has_instance-name_at s (suc i) name (t ∷ l) h = ground (arith, h, has_instance-name_at s i name l)

pub has_address-name_at :
    (a : String) (i : ℕ) (name : String) (l : List SchedulerInstance)
    → has_address a (name_at i name l) ≡ has_address a l
unfolding name_at
has_address-name_at a i name [] = refl
has_address-name_at a zero name (s ∷ l) = ground arith
has_address-name_at a (suc i) name (s ∷ l) = ground (arith, has_address-name_at a i name l)

pub name_at-Distinct :
    (i : ℕ) (name : String) (l : List SchedulerInstance) → Distinct l → Distinct (name_at i name l)
unfolding name_at
name_at-Distinct i name [] d = d
name_at-Distinct zero name (s ∷ l) d = ground arith
name_at-Distinct (suc i) name (s ∷ l) d =
    (has_address-name_at s.address i name l ∙ d.0, name_at-Distinct i name l d.1)

pub any-append :
    (p : SchedulerInstance → Bool) (l k : List SchedulerInstance)
    → any p (l ++ k) ≡ (any p l || any p k)
any-append p [] k = refl
any-append p (s ∷ l) k = ground (arith, any-append p l k)

pub append-Distinct :
    (l : List SchedulerInstance) (t : SchedulerInstance)
    → Distinct l
    → has_address t.address l ≡ false
    → Distinct (l ++ t ∷ [])
append-Distinct [] t d h = (refl, tt)
append-Distinct (s ∷ l) t d h = (
  ground (
    arith,
    any-append (λ u. u.address == s.address) l (t ∷ []),
    eq_iff s.address t.address,
    eq_iff t.address s.address,
  ),
  append-Distinct l t d.1 (ground arith),
)
