-- ===== src/Clean/Largest.antt =====
-- What is removed when the strategy is LARGE_FIRST.
use text.Mathlib.Text.{◌==◌ as str_eq}
use mathlib.Core.Path.{subst}
use mathlib.Core.List.{Memᴰ}
use mathlib.Core.List.Memᴰ.{head, tail, cases_cons}
use dingospeed.Base.{
  ℕ, ◌≤◌, ◌<◌, ◌≡◌, sym, ap, ◌∙◌, ◌⊎◌, inl, inr, ℤ, ltb_ℤ, String, List, [], ◌∷◌, ◌++◌, append-nil,
  append_assoc, Bool, true, false, some, ltb, ltb→lt, arith, either_way, Bool-cases,
}
use dingospeed.Settings.{SysConfig}
use dingospeed.Clean.{
  FileWithPath, CleanState, CleanWorld, insert_by, sort_slice, larger, before_today,
  sort_files_by_size, clean_file, clean_loop, check_disk_usage,
}
use dingospeed.Clean.Laws.{clean_file_removes, clean_file_fails}
use dingospeed.Clean.Order.{
  NoneBefore, IsOrdered, sort_slice-IsOrdered, larger_one_way, larger_between,
}

-- A file behind another one is no larger.
no_larger :
    (f g : FileWithPath) (l : List FileWithPath)
    → NoneBefore larger f l
    → Memᴰ g l
    → g.size ≤ f.size
no_larger f g [] n m = absurd (elim m [ ])
no_larger f g (x ∷ l) (first, n) m = elim (cases_cons m) [
  | inl e ↦ subst (λ y. y.size ≤ f.size) (sym e) (ground (arith, first))
  | inr behind ↦ no_larger f g l n behind
]

module _ (less : FileWithPath → FileWithPath → Bool) where
  into_insert_by :
      (f g : FileWithPath) (l : List FileWithPath) → Memᴰ g (f ∷ l) → Memᴰ g (insert_by less f l)
  unfolding insert_by
  into_insert_by f g [] m = m
  into_insert_by f g (x ∷ l) m =
      either_way (Memᴰ g) (less x f)
        (λ _. elim (cases_cons m) [
          | inl e ↦ tail (into_insert_by f g l (head e))
          | inr there ↦ elim (cases_cons there) [
            | inl e ↦ head e
            | inr behind ↦ tail (into_insert_by f g l (tail behind))
          ]
        ])
        (λ _. m)

  from_insert_by :
      (f g : FileWithPath) (l : List FileWithPath) → Memᴰ g (insert_by less f l) → Memᴰ g (f ∷ l)
  unfolding insert_by
  from_insert_by f g [] m = m
  from_insert_by f g (x ∷ l) m₀ =
      either_way (λ k. Memᴰ g k → Memᴰ g (f ∷ x ∷ l)) (less x f)
        (λ _ m. elim (cases_cons m) [
          | inl e ↦ tail (head e)
          | inr there ↦ elim (cases_cons (from_insert_by f g l there)) [
            | inl e ↦ head e
            | inr behind ↦ tail (tail behind)
          ]
        ])
        (λ _ m. m) m₀

  into_sort_slice :
      (g : FileWithPath) (l : List FileWithPath) → Memᴰ g l → Memᴰ g (sort_slice less l)
  unfolding sort_slice
  into_sort_slice g [] m = m
  into_sort_slice g (f ∷ l) m =
      into_insert_by f g (sort_slice less l)
        (elim (cases_cons m) [ inl e ↦ head e | inr there ↦ tail (into_sort_slice g l there) ])

  from_sort_slice :
      (g : FileWithPath) (l : List FileWithPath) → Memᴰ g (sort_slice less l) → Memᴰ g l
  unfolding sort_slice
  from_sort_slice g [] m = m
  from_sort_slice g (f ∷ l) m = elim (cases_cons (from_insert_by f g (sort_slice less l) m)) [
    | inl e ↦ head e
    | inr there ↦ tail (from_sort_slice g l there)
  ]

module _ (today : ℕ) where
  into_before_today :
      (g : FileWithPath) (l : List FileWithPath)
      → Memᴰ g l
      → g.mod_time < today
      → Memᴰ g (before_today today l)
  unfolding before_today
  into_before_today g [] m old = m
  into_before_today g (f ∷ l) m old =
      either_way (Memᴰ g) (ltb f.mod_time today)
        (λ _. elim (cases_cons m) [
          | inl e ↦ head e
          | inr there ↦ tail (into_before_today g l there old)
        ])
        (λ young. elim (cases_cons m) [
          | inl e ↦ absurd (ground (arith, young, old, ap (λ x. x.mod_time) e))
          | inr there ↦ into_before_today g l there old
        ])

  from_before_today :
      (g : FileWithPath) (l : List FileWithPath)
      → Memᴰ g (before_today today l)
      → Memᴰ g l × (g.mod_time < today)
  unfolding before_today
  from_before_today g [] m = absurd (elim m [ ])
  from_before_today g (f ∷ l) m₀ =
      either_way (λ k. Memᴰ g k → Memᴰ g (f ∷ l) × (g.mod_time < today)) (ltb f.mod_time today)
        (λ old m. elim (cases_cons m) [
          | inl e ↦ (head e, subst (λ x. x.mod_time < today) (sym e) (ltb→lt _ _ old))
          | inr there ↦ let (m', old') = from_before_today g l there in (tail m', old')
        ])
        (λ _ m. let (m', old') = from_before_today g l m in (tail m', old')) m₀

module _ (w : CleanWorld) (instance_id : String) where
  -- What goes comes from the list, and what can be removed and stays is no larger than any of it.
  abbrev pub IsLargest : List FileWithPath → List FileWithPath → Type 0
  IsLargest files gone =
      ((g : FileWithPath) → Memᴰ g gone → Memᴰ g files)
      × ((f : FileWithPath)
          → Memᴰ f files
          → w.removes f.path ≡ true
          → Memᴰ f gone ⊎ ((g : FileWithPath) → Memᴰ g gone → f.size ≤ g.size))

  abbrev Removes : List FileWithPath → CleanState → CleanState → Type 0
  Removes files s t =
      (gone : List FileWithPath) × (t.removed ≡ s.removed ++ gone) × IsLargest files gone

  none-Removes : (files : List FileWithPath) (s : CleanState) → Removes files s s
  none-Removes files s = (
    [],
    sym (append-nil s.removed),
    ((λ g m. absurd (elim m [ ])), λ f m can. inr (λ g m'. absurd (elim m' [ ]))),
  )

  -- The first file is removed, and it is the largest.
  first-Removes :
      (f : FileWithPath) (files : List FileWithPath) (s t : CleanState)
      → NoneBefore larger f files
      → w.removes f.path ≡ true
      → Removes files (clean_file w instance_id f s) t
      → Removes (f ∷ files) s t
  first-Removes f files s t first can (gone, removed, (from, stays)) = (
    f ∷ gone,
    removed
        ∙ ap (λ l. l ++ gone) (clean_file_removes w instance_id f s can).0
        ∙ append_assoc s.removed (f ∷ []) gone,
    (
      (λ g m. elim (cases_cons m) [ inl e ↦ head e | inr there ↦ tail (from g there) ]),
      λ x m can'. elim (cases_cons m) [
        | inl e ↦ inl (head e)
        | inr there ↦ elim (stays x there can') [
          | inl went ↦ inl (tail went)
          | inr small ↦ inr (λ g m'. elim (cases_cons m') [
            | inl e ↦ subst (λ y. x.size ≤ y.size) (sym e) (no_larger f x files first there)
            | inr later ↦ small g later
          ])
        ]
      ],
    ),
  )

  failed-Removes :
      (f : FileWithPath) (files : List FileWithPath) (s t : CleanState)
      → w.removes f.path ≡ false
      → Removes files (clean_file w instance_id f s) t
      → Removes (f ∷ files) s t
  failed-Removes f files s t cannot (gone, removed, (from, stays)) = (
    gone,
    removed ∙ ap (λ l. l ++ gone) (clean_file_fails w instance_id f s cannot).0,
    (
      (λ g m. tail (from g m)),
      λ x m can. elim (cases_cons m) [
        | inl e ↦ absurd (ground (arith, cannot, can, ap (λ y. w.removes y.path) e))
        | inr there ↦ stays x there can
      ],
    ),
  )

  clean_loop-Removes :
      (limit : ℤ) (files : List FileWithPath) (s : CleanState)
      → IsOrdered larger files
      → Removes files s (clean_loop w instance_id limit files s)
  unfolding clean_loop
  clean_loop-Removes limit [] s o = none-Removes [] s
  clean_loop-Removes limit (f ∷ files) s (first, o) =
      let t = clean_loop w instance_id limit files (clean_file w instance_id f s) in
      let rest = clean_loop-Removes limit files (clean_file w instance_id f s) o in
      either_way (Removes (f ∷ files) s) (ltb_ℤ s.current_size limit)
        (λ below. none-Removes (f ∷ files) s)
        (λ reached. elim (Bool-cases (w.removes f.path)) [
          | inl can ↦ first-Removes f files s t first can rest
          | inr cannot ↦ failed-Removes f files s t cannot rest
        ])

  large_first_runs :
      (c : SysConfig) (current : ℤ) (today : ℕ) (found : List FileWithPath) (t : CleanState)
      → c.disk_clean.cache_clean_strategy ≡ "LARGE_FIRST"
      → check_disk_usage w instance_id c (some current) today (some found) ≡ some t
      → clean_loop w instance_id c.disk_clean.cache_size_limit
          (sort_files_by_size today found)
          (record { current_size = current; removed = []; deleted = [] })
        ≡ t
  unfolding check_disk_usage
  large_first_runs c current today found t strategy run =
      let no_lru : str_eq c.disk_clean.cache_clean_strategy "LRU" ≡ false =
        ap (λ s. str_eq s "LRU") strategy in
      let no_fifo : str_eq c.disk_clean.cache_clean_strategy "FIFO" ≡ false =
        ap (λ s. str_eq s "FIFO") strategy in
      let largest : str_eq c.disk_clean.cache_clean_strategy "LARGE_FIRST" ≡ true =
        ap (λ s. str_eq s "LARGE_FIRST") strategy in
      ground (arith, run, no_lru, no_fifo, largest)

  -- A clean-up with the strategy LARGE_FIRST: each file that it removes was found and was last modified
  -- before today, and a file that was found, was last modified before today, can be removed and stays
  -- is no larger than any file that it removes.
  pub check_disk_usage_largest :
      (c : SysConfig) (current : ℤ) (today : ℕ) (found : List FileWithPath) (t : CleanState)
      → c.disk_clean.cache_clean_strategy ≡ "LARGE_FIRST"
      → check_disk_usage w instance_id c (some current) today (some found) ≡ some t
      → ((g : FileWithPath) → Memᴰ g t.removed → Memᴰ g found × (g.mod_time < today))
        × ((f : FileWithPath)
            → Memᴰ f found
            → f.mod_time < today
            → w.removes f.path ≡ true
            → Memᴰ f t.removed ⊎ ((g : FileWithPath) → Memᴰ g t.removed → f.size ≤ g.size))
  unfolding sort_files_by_size
  check_disk_usage_largest c current today found t strategy run =
      let ordered = sort_files_by_size today found in
      let begins : CleanState = record { current_size = current; removed = []; deleted = [] } in
      let done : clean_loop w instance_id c.disk_clean.cache_size_limit ordered begins ≡ t =
        large_first_runs c current today found t strategy run in
      let (gone, removed, (from, stays)) =
        clean_loop-Removes c.disk_clean.cache_size_limit ordered begins
          (sort_slice-IsOrdered larger larger_one_way larger_between (before_today today found)) in
      let all : gone ≡ t.removed = sym removed ∙ ap (λ s. s.removed) done in
      subst
        (λ l.
          ((g : FileWithPath) → Memᴰ g l → Memᴰ g found × (g.mod_time < today))
          × ((f : FileWithPath)
              → Memᴰ f found
              → f.mod_time < today
              → w.removes f.path ≡ true
              → Memᴰ f l ⊎ ((g : FileWithPath) → Memᴰ g l → f.size ≤ g.size)))
        all
        (
          (λ g m.
              from_before_today today g found
                (from_sort_slice larger g (before_today today found) (from g m))),
          λ f m old can.
              stays f
                (into_sort_slice larger f (before_today today found)
                  (into_before_today today f found m old))
                can,
        )
