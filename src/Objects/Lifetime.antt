-- ===== src/Objects/Lifetime.antt =====
-- Which objects there are, in step with the references that are held: ObCreateObject,
-- ObReferenceObject, ObDereferenceObject and ObDeleteObject.
use dsls_os.Base.{
  store, store_both, ℕ, ◌+◌, ◌-◌, ◌^◌, ◌%◌, ◌≤◌, ◌<◌, ◌≡◌, ◌≢◌, refl, sym, ap, ◌∙◌, subst, arith,
  Bool, true, false, List, [], ◌∷◌, ◌++◌, ltb, leb, ◌==◌, if◌then◌else◌, Bool-cases, inl, inr,
  ==→eq, ==_refl, lt→ltb, either, ne→==, length, length-append, dec32, ulong_mod,
}
use dsls_os.Base.Entries.{
  occurrences, remove_entry, occurrences-append, occurrences-remove_entry, length-remove_entry,
}
use dsls_os.Objects.{
  new_object, Object, ObjectManager, type_max, create, reference, delete, dereference, not_positive,
  free_pool,
}

-- How many of the objects have the type `k`.
unfoldable pub count_type : (ℕ → Object) → ℕ → List ℕ → ℕ
count_type objects k [] = 0
count_type objects k (o ∷ os) =
    (if (objects o).object_type == k then 1 else 0) + count_type objects k os

count_type-append :
    (objects : ℕ → Object) (k o : ℕ) (os : List ℕ)
    → count_type objects k (os ++ o ∷ [])
      ≡ count_type objects k os + (if (objects o).object_type == k then 1 else 0)
unfolding count_type
count_type-append objects k o [] = omega arith
count_type-append objects k o (x ∷ os) = omega (arith, count_type-append objects k o os)

-- Only the types count.
count_type-same :
    (objects objects' : ℕ → Object) (k : ℕ) (os : List ℕ)
    → ((o : ℕ) → 1 ≤ occurrences o os → (objects o).object_type ≡ (objects' o).object_type)
    → count_type objects k os ≡ count_type objects' k os
unfolding count_type occurrences
count_type-same objects objects' k [] e = refl
count_type-same objects objects' k (o ∷ os) e =
    let rest = count_type-same objects objects' k os (λ x h. e x (omega (arith, h))) in
    rw (e o (rw (==_refl o) (omega arith)), rest) refl

count_type-remove_entry :
    (objects : ℕ → Object) (k o : ℕ) (os : List ℕ)
    → 1 ≤ occurrences o os
    → count_type objects k os
      ≡ (if (objects o).object_type == k then 1 else 0) + count_type objects k (remove_entry o os)
unfolding count_type occurrences remove_entry
count_type-remove_entry objects k o [] h = absurd (omega arith)
count_type-remove_entry objects k o (x ∷ os) h = elim (Bool-cases (x == o)) [
  | inl e ↦ rw (e, ==→eq x o e) refl
  | inr e ↦
      let rest = count_type-remove_entry objects k o os (ground (arith, h)) in
      rw e (omega (arith, rest))
]

-- A changed object that keeps its type leaves the counts of the types.
count_type-store :
    (objects : ℕ → Object) (k o : ℕ) (v : Object) (os : List ℕ)
    → v.object_type ≡ (objects o).object_type
    → count_type objects k os ≡ count_type (store objects o v) k os
count_type-store objects k o v os e = count_type-same objects (store objects o v) k os (λ x h.
    elim (Bool-cases (o == x)) [
      | inl f ↦ rw f (ap (λ i. (objects i).object_type) (sym (==→eq o x f)) ∙ sym e)
      | inr f ↦ rw f refl
    ])

-- A new object at the end.
count_type-new :
    (objects : ℕ → Object) (k o : ℕ) (v : Object) (os : List ℕ)
    → occurrences o os ≡ 0
    → count_type (store objects o v) k (os ++ o ∷ [])
      ≡ count_type objects k os + (if v.object_type == k then 1 else 0)
count_type-new objects k o v os out =
    let old : count_type objects k os ≡ count_type (store objects o v) k os =
      count_type-same objects (store objects o v) k os (λ x h. elim (Bool-cases (o == x)) [
        | inl f ↦
            let here : 1 ≤ occurrences o os =
              subst (λ y. 1 ≤ occurrences y os) (sym (==→eq o x f)) h in
            absurd (omega (arith, here, out))
        | inr f ↦ rw f refl
      ]) in
    count_type-append (store objects o v) k o os ∙ rw (==_refl o, old) refl

-- What is said of one object, its count of references and its entry in the list.
pub record IsHeld (o entries n : ℕ) (object : Object) : Type 0 where
  pub not_null : o ≡ 0 → n ≡ 0
  pub once : entries ≡ (if n == 0 then 0 else 1)
  pub references : 1 ≤ n → object.reference_count ≡ n
  pub positive : n < 2 ^ 31
  pub typed : 1 ≤ n → object.object_type < type_max

-- The object manager in step with the references held: `refs o` is how many there are to the object at
-- `o`, and there is no object where it is 0.
pub record IsTracked (s : ObjectManager) (refs : ℕ → ℕ) : Type 0 where
  pub running : s.initialized ≡ true
  pub held : (o : ℕ) → IsHeld o (occurrences o s.object_list) (refs o) (s.objects o)
  pub counted : s.object_count ≡ length s.object_list % ulong_mod
  pub totals : (k : ℕ) → s.total_objects k ≡ count_type s.objects k s.object_list % ulong_mod

module _ (s : ObjectManager) (refs : ℕ → ℕ) (q : IsTracked s refs) where
  -- The object at `o`, to which there are references, is set to `v`, with `n` references.
  set-IsTracked :
      (o n : ℕ) (v : Object)
      → 1 ≤ refs o
      → 1 ≤ n
      → n < 2 ^ 31
      → v.reference_count ≡ n
      → v.object_type ≡ (s.objects o).object_type
      → IsTracked (record s { objects = store s.objects o v }) (store refs o n)
  set-IsTracked o n v before some small count type =
      let h = q.held o in
      record {
        running = q.running;
        held =
            store_both (λ u m x. IsHeld u (occurrences u s.object_list) m x) refs s.objects o n v
              (record {
                not_null = λ z. absurd (omega (arith, before, h.not_null z));
                once = ground (arith, h.once, before, some);
                references = λ p. count;
                positive = small;
                typed = λ p. omega (arith, type, h.typed before);
              })
              (λ u ne. q.held u);
        counted = q.counted;
        totals = λ k.
            q.totals k
            ∙ ap (λ n. n % ulong_mod) (count_type-store s.objects k o v s.object_list type);
      }

  not_null-== : (o : ℕ) → 1 ≤ refs o → (o == 0) ≡ false
  not_null-== o before = ne→== o 0 (λ z. omega (arith, before, (q.held o).not_null z))

  pub reference-IsTracked :
      (o : ℕ)
      → 1 ≤ refs o
      → refs o + 1 < 2 ^ 31
      → IsTracked (reference s o) (store refs o (refs o + 1))
  unfolding reference
  reference-IsTracked o before small = rw (not_null-== o before) (
      set-IsTracked o (refs o + 1) _ before (omega arith) small
        (omega (arith, (q.held o).references before, small)) refl)

  -- The object at `o` is taken out of the list and the counts, whatever becomes of its header.
  removed-IsTracked :
      (o : ℕ) (v : Object) (r : ObjectManager)
      → 1 ≤ refs o
      → r.initialized ≡ true
      → r.object_list ≡ remove_entry o s.object_list
      → r.object_count ≡ dec32 s.object_count
      → ((k : ℕ)
          → r.total_objects k
            ≡ store s.total_objects
                (s.objects o).object_type
                (dec32 (s.total_objects (s.objects o).object_type))
                k)
      → r.objects ≡ store s.objects o v
      → v.object_type ≡ (s.objects o).object_type
      → IsTracked r (store refs o 0)
  removed-IsTracked o v r before run list count totals objects same =
      let rest = remove_entry o s.object_list in
      let there : occurrences o s.object_list ≡ 1 = ground (arith, (q.held o).once, before) in
      record {
        running = run;
        held = λ u.
            rw (list, objects, occurrences-remove_entry o u s.object_list)
              (store_both
                (λ u m x. IsHeld u (occurrences u s.object_list - (if o == u then 1 else 0)) m x)
                refs s.objects o 0 v
                (record {
                  not_null = λ z. refl;
                  once = rw (there, ==_refl o) refl;
                  references = λ h. absurd (omega arith);
                  positive = omega arith;
                  typed = λ h. absurd (omega arith);
                })
                (λ u ne.
                  let whole : occurrences u s.object_list - (if o == u then 1 else 0)
                      ≡ occurrences u s.object_list =
                    rw ne (omega arith) in
                  subst (λ n. IsHeld u n (refs u) (s.objects u)) (sym whole) (q.held u))
                u);
        counted =
            rw (count, list) (omega (arith, q.counted, length-remove_entry o s.object_list there));
        totals = λ k.
            let left : count_type s.objects k rest ≡ count_type r.objects k rest =
              count_type-store s.objects k o v rest same
              ∙ ap (λ f. count_type f k rest) (sym objects) in
            let all = count_type-remove_entry s.objects k o s.object_list (omega (arith, there)) in
            rw (totals k, list, ← left)
              (elim (Bool-cases ((s.objects o).object_type == k)) [
                | inl e ↦ rw (e, ==→eq _ k e) (ground (arith, all, q.totals k))
                | inr e ↦ rw e (ground (arith, all, q.totals k))
              ]);
      }

  delete-IsTracked :
      (o : ℕ) (v : Object)
      → 1 ≤ refs o
      → v.object_type ≡ (s.objects o).object_type
      → IsTracked (delete (record s { objects = store s.objects o v }) o) (store refs o 0)
  unfolding delete
  delete-IsTracked o v before same =
      let nz : (o == 0) ≡ false = not_null-== o before in
      let valid = lt→ltb _ type_max ((q.held o).typed before) in
      let type = (store s.objects o v o).object_type in
      let totals : (k : ℕ)
          → (if ltb type type_max
                then store s.total_objects type (dec32 (s.total_objects type))
                else s.total_objects)
              k
            ≡ store s.total_objects (s.objects o).object_type
                (dec32 (s.total_objects (s.objects o).object_type)) k =
        λ k. rw (==_refl o, same, valid) refl in
      rw nz (
        either (λ r. IsTracked (free_pool r o) (store refs o 0)) _ _ _
          (removed-IsTracked o v _ before q.running refl refl totals refl same)
          (removed-IsTracked o v _ before q.running refl refl totals refl same))

  pub dereference-IsTracked :
      (o : ℕ) → 1 ≤ refs o → IsTracked (dereference s o) (store refs o (refs o - 1))
  unfolding dereference
  dereference-IsTracked o before =
      let h = q.held o in
      let down : dec32 (s.objects o).reference_count ≡ refs o - 1 =
        omega (arith, h.references before, h.positive, before) in
      rw (not_null-== o before) (elim (Bool-cases (refs o == 1)) [
        | inl one ↦
            let last : not_positive (dec32 (s.objects o).reference_count) ≡ true =
              rw down (ground (arith, one)) in
            let none : refs o - 1 ≡ 0 = ground (arith, one) in
            rw (last, none) (delete-IsTracked o _ before refl)
        | inr more ↦
            let kept : not_positive (dec32 (s.objects o).reference_count) ≡ false =
              rw down (ground (arith, more, h.positive, before)) in
            rw kept (
              set-IsTracked o (refs o - 1) _ before (ground (arith, more, before))
                (omega (arith, h.positive)) down refl)
      ])

  pub create-IsTracked :
      (type block : ℕ)
      → type < type_max
      → block ≢ 0
      → refs block ≡ 0
      → IsTracked (create s type true block).2 (store refs block 1)
  unfolding create
  create-IsTracked type block valid nz free =
      let ok : leb type_max type ≡ false = ground (arith, valid) in
      let here = ne→== block 0 nz in
      let out : occurrences block s.object_list ≡ 0 = (q.held block).once ∙ rw free refl in
      rw (ok, q.running, here)
        (record {
          running = refl;
          held = λ u. rw (occurrences-append block u s.object_list) (
              store_both
                (λ u m x.
                  IsHeld u (occurrences u s.object_list + (if block == u then 1 else 0)) m x)
                refs s.objects block 1 _
                (record {
                  not_null = λ z. absurd (nz z);
                  once = rw (out, ==_refl block) refl;
                  references = λ h. refl;
                  positive = omega arith;
                  typed = λ h. valid;
                })
                (λ u ne.
                  let whole : occurrences u s.object_list + (if block == u then 1 else 0)
                      ≡ occurrences u s.object_list =
                    rw ne (omega arith) in
                  subst (λ n. IsHeld u n (refs u) (s.objects u)) (sym whole) (q.held u))
                u);
          counted = omega (arith, q.counted, length-append s.object_list (block ∷ []));
          totals = λ k.
              let all = count_type-new s.objects k block (new_object type) s.object_list out in
              elim (Bool-cases (type == k)) [
                | inl e ↦ rw (all, e, ==→eq type k e) (omega (arith, q.totals k))
                | inr e ↦ rw (all, e) (omega (arith, q.totals k))
              ];
        })

  -- A header with another security descriptor.
  pub reheader-IsTracked :
      (o : ℕ) (v : Object) (allocated : ℕ → Bool)
      → v.reference_count ≡ (s.objects o).reference_count
      → v.object_type ≡ (s.objects o).object_type
      → IsTracked (record s { objects = store s.objects o v; allocated = allocated }) refs
  reheader-IsTracked o v allocated count type = record {
    running = q.running;
    held = λ u.
        let h = q.held u in
        elim (Bool-cases (o == u)) [
          | inl e ↦
              let same = ==→eq o u e in
              record {
                not_null = h.not_null;
                once = h.once;
                references = λ p. rw (e, ← same) (count ∙ rw same (h.references p));
                positive = h.positive;
                typed = λ p. rw (e, type, same) (h.typed p);
              }
          | inr e ↦ rw e h
        ];
    counted = q.counted;
    totals = λ k.
        q.totals k ∙ ap (λ n. n % ulong_mod) (count_type-store s.objects k o v s.object_list type);
  }
