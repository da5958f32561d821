-- ===== src/Containers/Registry.antt =====
-- What the registry should hold, and what writing and removing a container does to that.
use dsls_os.Base.{
  ℕ, suc, ◌+◌, ◌≡◌, refl, ap, arith, Bool, true, false, ◌||◌, Option, none, some, List, [], ◌∷◌,
  ◌++◌, ◌==◌, if◌then◌else◌, Bool-cases, inl, inr, length, success, ◌%◌, ulong_mod,
}
use dsls_os.Containers.{
  State, is_running, is_paused, Container, System, validate_limits, find_by_id, write_container,
  remove_container,
}

-- A running or paused container.
abbrev pub is_active : State → Bool
is_active state = is_running state || is_paused state

abbrev pub one_if : Bool → ℕ
one_if b = if b then 1 else 0

unfoldable pub count_active : List Container → ℕ
count_active [] = 0
count_active (c ∷ cs) = one_if (is_active c.state) + count_active cs

-- The limits of a container pass the validation, and its volumes are counted right.
pub record IsSane (c : Container) : Type 0 where
  pub limited : validate_limits c.limits ≡ success
  pub counted : c.volume_count ≡ length c.volume_list % ulong_mod

abbrev pub All : List Container → Type 0
All [] = Unit {0}
All (c ∷ cs) = IsSane c × All cs

-- Every container is as it should be, the containers are counted right, and so are the active ones, but
-- for `lost` ones that are counted and do not exist.
pub record IsRegistered (s : System) (lost : ℕ) : Type 0 where
  pub sane : All s.container_list
  pub counted : s.container_count ≡ length s.container_list % ulong_mod
  pub active : s.active_container_count ≡ (count_active s.container_list + lost) % ulong_mod

-- The container `c` stands in the list, as the first one of its number.
pub record IsAt (id : ℕ) (cs : List Container) (c : Container) : Type 0 where
  pub written_length : (v : Container) → length (write_container id v cs) ≡ length cs
  pub written_active :
      (v : Container)
      → count_active (write_container id v cs) + one_if (is_active c.state)
        ≡ count_active cs + one_if (is_active v.state)
  pub written_sane : (v : Container) → All cs → IsSane v → All (write_container id v cs)
  pub removed_length : length cs ≡ suc (length (remove_container id cs))
  pub removed_active :
      count_active cs ≡ one_if (is_active c.state) + count_active (remove_container id cs)
  pub removed_sane : All cs → All (remove_container id cs)
  pub sane : All cs → IsSane c
  pub numbered : (c.container_id == id) ≡ true
  pub removed_written :
      (v : Container)
      → (v.container_id == id) ≡ true
      → remove_container id (write_container id v cs) ≡ remove_container id cs

abbrev pub Found : ℕ → List Container → Option Container → Type 0
Found id cs none = Unit {0}
Found id cs (some c) = IsAt id cs c

head-IsAt :
    (id : ℕ) (c : Container) (cs : List Container)
    → (c.container_id == id) ≡ true
    → IsAt id (c ∷ cs) c
unfolding write_container remove_container count_active
head-IsAt id c cs e = record {
  written_length = λ v. rw e refl;
  written_active = λ v. rw e (omega arith);
  written_sane = λ v a k. rw e (k, a.1);
  removed_length = rw e refl;
  removed_active = rw e refl;
  removed_sane = λ a. rw e a.1;
  sane = λ a. a.0;
  numbered = e;
  removed_written = λ v n. rw (e, n) refl;
}

tail-Found :
    (id : ℕ) (x : Container) (cs : List Container) (o : Option Container)
    → (x.container_id == id) ≡ false
    → Found id cs o
    → Found id (x ∷ cs) o
unfolding write_container remove_container count_active
tail-Found id x cs none e f = tt
tail-Found id x cs (some c) e f = record {
  written_length = λ v. rw e (ap suc (f.written_length v));
  written_active = λ v. rw e (omega (arith, f.written_active v));
  written_sane = λ v a k. rw e (a.0, f.written_sane v a.1 k);
  removed_length = rw e (ap suc f.removed_length);
  removed_active = rw e (omega (arith, f.removed_active));
  removed_sane = λ a. rw e (a.0, f.removed_sane a.1);
  sane = λ a. f.sane a.1;
  numbered = f.numbered;
  removed_written = λ v n. rw e (rw e (ap (λ l. x ∷ l) (f.removed_written v n)));
}

pub find_by_id-Found : (id : ℕ) (cs : List Container) → Found id cs (find_by_id id cs)
unfolding find_by_id
find_by_id-Found id [] = tt
find_by_id-Found id (c ∷ cs) = elim (Bool-cases (c.container_id == id)) [
  | inl e ↦ rw e (head-IsAt id c cs e)
  | inr e ↦ rw e (tail-Found id c cs (find_by_id id cs) e (find_by_id-Found id cs))
]

pub count_active-append :
    (cs : List Container) (c : Container)
    → count_active (cs ++ c ∷ []) ≡ count_active cs + one_if (is_active c.state)
unfolding count_active
count_active-append [] c = omega arith
count_active-append (x ∷ cs) c = omega (arith, count_active-append cs c)

pub All-append : (cs : List Container) (c : Container) → All cs → IsSane c → All (cs ++ c ∷ [])
All-append [] c a k = (k, tt)
All-append (x ∷ cs) c a k = (a.0, All-append cs c a.1 k)
