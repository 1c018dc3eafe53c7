-- ===== src/Manager/Keeps.antt =====
-- What the actions on an open cache file leave alone: that it is open, and its path.
use dingospeed.Base.{ℕ, ◌+◌, ◌-◌, ◌/◌, ◌≡◌, String, true, Result, ok, err, panicked, arith}
use dingospeed.Errors.{Error, file_closed}
use dingospeed.Disk.{Disk}
use dingospeed.Cache.{
  World, DingCache, new_ding_cache, open_cache, open_existing, open_new, resize, resize_file_size,
  resize_header, flush_header, need_open, need_header,
}
use dingospeed.Cache.Monad.{Exec, and_then, ◌>>=◌}
use dingospeed.Manager.{open_ding_file}

-- The file that the world has open is open at `path`.
pub record IsOpenAt (path : String) (cache : DingCache) : Type 0 where
  pub opened : cache.is_open ≡ true
  pub path_is : cache.path ≡ path

abbrev Keeps : {A : Type 0} → Exec World A → Type 0
Keeps m = (p : String) (w : World) → IsOpenAt p w.cache → IsOpenAt p (m w).1.cache

and_then-Keeps :
    {A B : Type 0} (r : Result Error A) (w : World) (f : A → Exec World B) (p : String)
    → IsOpenAt p w.cache
    → ((a : A) → Keeps (f a))
    → IsOpenAt p (and_then (r, w) f).1.cache
and_then-Keeps (ok a) w f p h k = k a p w h
and_then-Keeps (err e) w f p h k = h
and_then-Keeps panicked w f p h k = h

bind-Keeps :
    {A B : Type 0} (m : Exec World A) (f : A → Exec World B)
    → Keeps m
    → ((a : A) → Keeps (f a))
    → Keeps (m >>= f)
bind-Keeps m f km kf p w h = and_then-Keeps (m w).0 (m w).1 f p (km p w h) kf

flush_header-Keeps : Keeps flush_header
unfolding flush_header
flush_header-Keeps p w h = ground arith

resize_file_size-Keeps : (fs : ℕ) → Keeps (resize_file_size fs)
unfolding resize_file_size
resize_file_size-Keeps fs p w h = ground arith

resize_header-Keeps : (n fs : ℕ) → Keeps (resize_header n fs)
unfolding resize_header
resize_header-Keeps n fs p w h = ground arith

need_open-Keeps : (e : Error) → Keeps (need_open e)
need_open-Keeps e p w h = ground arith

need_header-Keeps : Keeps need_header
need_header-Keeps p w h = h

pub resize-Keeps : (fs : ℕ) → Keeps (resize fs)
unfolding resize
resize-Keeps fs = bind-Keeps (need_open file_closed) _ (need_open-Keeps file_closed) (λ _.
    bind-Keeps need_header _ need_header-Keeps (λ hd.
      bind-Keeps (resize_file_size fs) _ (resize_file_size-Keeps fs) (λ _.
        bind-Keeps (resize_header ((fs + hd.block_size - 1) / hd.block_size) fs) _
          (resize_header-Keeps _ fs) (λ _. flush_header-Keeps))))

pub new_ding_cache_opens :
    (disk : Disk) (path : String) (bs : ℕ)
    → (new_ding_cache disk path bs).0 ≡ ok tt
    → IsOpenAt path (new_ding_cache disk path bs).1.cache
unfolding new_ding_cache open_cache open_existing open_new
new_ding_cache_opens disk path bs h = ground arith

pub open_ding_file_opens :
    (disk : Disk) (path : String) (bs fs : ℕ)
    → (open_ding_file bs path fs disk).0 ≡ ok tt
    → IsOpenAt path (open_ding_file bs path fs disk).1.cache
unfolding open_ding_file
open_ding_file_opens disk path bs fs h =
    ground (
      arith,
      new_ding_cache_opens disk path bs,
      resize-Keeps fs path (new_ding_cache disk path bs).1,
    )
