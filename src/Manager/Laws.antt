-- ===== src/Manager/Laws.antt =====
-- The manager keeps a file open as long as it has a user.
use dingospeed.Base.{
  ℕ, ◌+◌, ◌-◌, ◌≡◌, ◌≢◌, ◌<◌, refl, either_way, sym, ◌∙◌, String, Option, some, none, Result, ok,
  err, panicked, ◌==◌, arith, if◌then◌else◌, Option-cases, inl, inr, same_key, string_keyed,
  string_same_iff,
}
use mathlib.Core.Path.{subst}
use dingospeed.Errors.{Error}
use dingospeed.Cache.{World, DingCache}
use dingospeed.SafeMap.{get_key, set_key}
use dingospeed.SafeMap.Laws.{get_key-set_key, get_key-delete_key}
use dingospeed.Manager.{
  DingCacheManager, open_ding_file, keep_opened, add_user, get_ding_file, released_ding_file,
}
use dingospeed.Manager.Keeps.{IsOpenAt, open_ding_file_opens}

abbrev pub counted : ℕ → Option ℕ
counted n = if n == 0 then none else some n

abbrev pub IsHeld : String → ℕ → Option DingCache → Type 0
IsHeld path n none = n ≡ 0
IsHeld path n (some cache) = (0 < n) × IsOpenAt path cache

-- `users` are the calls of GetDingFile that succeeded and were not released yet, for each path.
pub record IsConsistent (f : DingCacheManager) (users : String → ℕ) : Type 0 where
  pub refs : (p : String) → get_key f.ding_cache_ref p ≡ counted (users p)
  pub held : (p : String) → IsHeld p (users p) (get_key f.ding_cache_map p)

abbrev pub with_users : (String → ℕ) → String → ℕ → String → ℕ
with_users users path n p = if same_key path p then n else users p

-- The same files with the same counts.
abbrev pub IsLeft : (String → ℕ) → DingCacheManager → DingCacheManager → Type 0
IsLeft users f f' =
    (f'.ding_cache_map ≡ f.ding_cache_map)
    × (f'.ding_cache_ref ≡ f.ding_cache_ref)
    × IsConsistent f' users

-- What GetDingFile returns and leaves.
abbrev pub Gets :
    String → (String → ℕ) → DingCacheManager → Result Error DingCache × DingCacheManager → Type 0
Gets path users f (ok cache, f') =
    IsOpenAt path cache
    × (get_key f'.ding_cache_map path ≡ some cache)
    × IsConsistent f' (with_users users path (users path + 1))
    × ((held : DingCache) → get_key f.ding_cache_map path ≡ some held → cache ≡ held)
    × ((p : String) → path ≢ p → get_key f'.ding_cache_map p ≡ get_key f.ding_cache_map p)
Gets path users f (err e, f') = (users path ≡ 0) × IsLeft users f f'
Gets path users f (panicked, f') = (users path ≡ 0) × IsLeft users f f'

-- When the registry holds a file for each path with users, open there, and counts them, then after
-- ReleasedDingFile it does so with one user less of that path, and with none less when it had none:
-- the file of the last user is dropped.
pub released_ding_file-IsConsistent :
    (path : String) (f : DingCacheManager) (users : String → ℕ)
    → IsConsistent f users
    → IsConsistent (released_ding_file path f) (with_users users path (users path - 1))
unfolding released_ding_file
released_ding_file-IsConsistent path f users c = record {
  refs = λ p. ground (
    arith,
    c.refs p,
    c.refs path,
    string_same_iff path p,
    get_key-set_key f.ding_cache_ref path (users path - 1) p,
    get_key-delete_key f.ding_cache_ref path p,
  );
  held = λ p. ground (
    arith,
    c.held p,
    c.refs p,
    c.refs path,
    string_same_iff path p,
    get_key-delete_key f.ding_cache_map path p,
  );
}

add_user-Gets :
    (path : String) (f : DingCacheManager) (users : String → ℕ) (cache : DingCache)
    → IsConsistent f users
    → get_key f.ding_cache_map path ≡ some cache
    → IsHeld path (users path) (some cache)
    → Gets path users f (ok cache, add_user path f)
unfolding add_user
add_user-Gets path f users cache c here mine = (
  mine.1,
  ground (arith, here),
  record {
    refs = λ p. ground (
      arith,
      mine.0,
      c.refs path,
      c.refs p,
      string_same_iff path p,
      get_key-set_key f.ding_cache_ref path (users path + 1) p,
    );
    held = λ p. ground (arith, c.held p, here, mine, string_same_iff path p);
  },
  λ held e. ground (arith, here, e),
  λ p apart. ground arith,
)

other_key :
    (f : DingCacheManager) (path : String) (cache : DingCache) (p : String)
    → path ≢ p
    → get_key (set_key f.ding_cache_map path cache) p ≡ get_key f.ding_cache_map p
other_key f path cache p apart =
    get_key-set_key f.ding_cache_map path cache p
    ∙ either_way (λ o. o ≡ get_key f.ding_cache_map p) (same_key path p)
        (λ same. absurd (apart ((string_same_iff path p).0 same))) (λ _. refl)

keep_opened-Gets :
    (path : String) (f : DingCacheManager) (users : String → ℕ) (r : Result Error (Unit {0}))
    (w : World)
    → IsConsistent f users
    → users path ≡ 0
    → (r ≡ ok tt → IsOpenAt path w.cache)
    → Gets path users f (keep_opened path f (r, w))
unfolding keep_opened
keep_opened-Gets path f users (err e) w c unused opens =
    (unused, (refl, refl, record { refs = c.refs; held = c.held }))
keep_opened-Gets path f users panicked w c unused opens =
    (unused, (refl, refl, record { refs = c.refs; held = c.held }))
keep_opened-Gets path f users (ok tt) w c unused opens = (
  opens refl,
  get_key-set_key f.ding_cache_map path w.cache path ∙ rw ((string_same_iff path path).1 refl) refl,
  record {
    refs = λ p. ground (
      arith,
      unused,
      c.refs p,
      string_same_iff path p,
      get_key-set_key f.ding_cache_ref path 1 p,
    );
    held = λ p. ground (
      arith,
      unused,
      c.held p,
      opens refl,
      string_same_iff path p,
      get_key-set_key f.ding_cache_map path w.cache p,
    );
  },
  λ held e. absurd (ground (arith, unused, c.held path, e)),
  λ p apart. other_key f path w.cache p apart,
)

get_ding_file_first :
    (bs : ℕ) (path : String) (fs : ℕ) (f : DingCacheManager)
    → get_key f.ding_cache_map path ≡ none
    → get_ding_file bs path fs f ≡ keep_opened path f (open_ding_file bs path fs f.disk)
unfolding get_ding_file
get_ding_file_first bs path fs f gone = rw (gone, get_ding_file) refl

get_ding_file_again :
    (bs : ℕ) (path : String) (fs : ℕ) (f : DingCacheManager) (cache : DingCache)
    → get_key f.ding_cache_map path ≡ some cache
    → get_ding_file bs path fs f ≡ (ok cache, add_user path f)
unfolding get_ding_file
get_ding_file_again bs path fs f cache here = rw (here, get_ding_file) refl

-- When the registry holds a file for each path with users, open there, and counts them: GetDingFile
-- returns an open file of its path, the one that the registry held if it held one, which the registry
-- then holds, and counts one user more; every other path has what it had. When it returns an error
-- there was no user, and the registry has the files and the counts that it had.
pub get_ding_file-Gets :
    (bs : ℕ) (path : String) (fs : ℕ) (f : DingCacheManager) (users : String → ℕ)
    → IsConsistent f users
    → Gets path users f (get_ding_file bs path fs f)
get_ding_file-Gets bs path fs f users c = elim (Option-cases (get_key f.ding_cache_map path)) [
  | inl gone ↦
      let (opened, w) = open_ding_file bs path fs f.disk in
      let unused : users path ≡ 0 = ground (arith, c.held path, gone) in
      subst (Gets path users f) (sym (get_ding_file_first bs path fs f gone))
        (keep_opened-Gets path f users opened w c unused (open_ding_file_opens f.disk path bs fs))
  | inr (cache, here) ↦
      let mine : IsHeld path (users path) (some cache) = ground (arith, c.held path, here) in
      subst (Gets path users f) (sym (get_ding_file_again bs path fs f cache here))
        (add_user-Gets path f users cache c here mine)
]
