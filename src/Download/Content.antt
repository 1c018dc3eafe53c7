-- ===== src/Download/Content.antt =====
-- What a list of tasks sends.
use dingospeed.Base.{
  ℕ, ◌+◌, ◌*◌, ◌≤◌, ◌<◌, ◌≡◌, refl, ap, String, List, [], ◌∷◌, ◌++◌, Bool, true, false, ok, arith,
  append_assoc, if◌then◌else◌, ◌==◌,
}
use mathlib.Core.Path.{subst}
use dingospeed.Header.{DingCacheHeader}
use dingospeed.Task.{DownloadTask, RemoteFields, Kind, cached, remote}
use dingospeed.Ranges.{has_block}
use dingospeed.Ranges.Tiling.{Tiles}
use dingospeed.Cache.Blocks.{IsRightCache}
use dingospeed.Reader.{BlockCache, ReadSettings}
use dingospeed.Reader.Laws.{NoCollision, IsRightMemory}
use dingospeed.Fetch.Laws.{IsHonest, get_file_range_from_remote-IsSegment}
use dingospeed.CacheRead.{out_result}
use dingospeed.CacheRead.Laws.{joined, IsSegment, IsSegment-append, out_result-Delivers}
use dingospeed.Download.{Surroundings, Network, out_queue, fetched, out_kind, out_tasks}

pub joined-append : (xs ys : List (List ℕ)) → joined (xs ++ ys) ≡ joined xs ++ joined ys
joined-append [] ys = refl
joined-append (x ∷ xs) ys = rw (joined-append xs ys) (sym_assoc x (joined xs) (joined ys))
  where
    sym_assoc : (a b c : List ℕ) → (a ++ (b ++ c)) ≡ ((a ++ b) ++ c)
    sym_assoc a b c = simp append_assoc

out_queue_all :
    (ctx_err : ℕ → Bool) (k : ℕ) (chunks : List (List ℕ))
    → ((n : ℕ) → ctx_err n ≡ false)
    → out_queue ctx_err k chunks ≡ chunks
unfolding out_queue
out_queue_all ctx_err k [] live = refl
out_queue_all ctx_err k (chunk ∷ chunks) live =
    rw (live k) (ap (λ l. chunk ∷ l) (out_queue_all ctx_err (k + 1) chunks live))

module _ (content : ℕ → ℕ) {M : Type 0} (cache : BlockCache M) (md5 : String → String)
    (settings : ReadSettings) (net : Network) (around : Surroundings M) where
  -- What a cache task needs: an open file whose blocks hold the content, among them all that the task
  -- touches, and a store that is right for it.
  pub record IsReadable (i : ℕ) (t : DownloadTask) : Type 0 where
    pub header : DingCacheHeader
    pub body : List ℕ
    pub right : IsRightCache content (around.worlds i) header body
    pub apart : NoCollision content (around.worlds i) header body right cache md5 settings
    pub memory :
        IsRightMemory content
          (around.worlds i)
          header
          body
          right
          cache
          md5
          settings
          (around.memories i)
    pub inside : t.range_end_pos ≤ header.file_size
    pub present :
        (k : ℕ)
        → k * header.block_size < t.range_end_pos
        → t.range_start_pos < (k + 1) * header.block_size
        → has_block header k ≡ ok true

  -- What a remote task needs: servers that send the content, and a fetch without an error.
  pub record IsFetched (i : ℕ) (t : DownloadTask) (r : RemoteFields) : Type 0 where
    pub honest : IsHonest content t.range_end_pos (around.servers i)
    pub done : (fetched cache md5 settings net around i t r).0 ≡ ok tt

  abbrev pub HasSource : ℕ → DownloadTask → Kind → Type 0
  HasSource i t cached = IsReadable i t
  HasSource i t (remote r) = IsFetched i t r

  abbrev pub HaveSources : ℕ → List DownloadTask → Type 0
  HaveSources i [] = Unit {0}
  HaveSources i (t ∷ tasks) = HasSource i t t.kind × HaveSources (i + 1) tasks

  -- The context is not done before the end.
  pub record IsLive : Type 0 where
    pub before : (i : ℕ) → around.ctx_err i ≡ false
    pub reading : (i k : ℕ) → around.read_err i k ≡ false
    pub sending : (i k : ℕ) → around.send_err i k ≡ false
    pub passing : (i k : ℕ) → around.pass_err i k ≡ false

  module _ (live : IsLive) where
    from_cache :
        (i : ℕ) (t : DownloadTask)
        → t.range_start_pos < t.range_end_pos
        → IsReadable i t
        → IsSegment content t.range_start_pos t.range_end_pos (
            joined
              (out_result cache md5 settings
                (around.read_err i)
                (around.send_err i)
                (around.worlds i)
                t
                (around.memories i)).chunks)
    from_cache i t h v =
        (out_result-Delivers content (around.worlds i) v.header v.body v.right cache md5 settings
          v.apart (around.read_err i) (around.send_err i)
          (λ k. (live.reading i k, live.sending i k)) t h v.inside v.present (around.memories i)
          v.memory).0

    from_servers :
        (i : ℕ) (t : DownloadTask) (r : RemoteFields)
        → t.range_start_pos < t.range_end_pos
        → IsFetched i t r
        → IsSegment content t.range_start_pos t.range_end_pos (
            joined
              (out_queue (around.pass_err i) 0 (fetched cache md5 settings net around i t r).1))
    unfolding fetched
    from_servers i t r h v =
        rw
          (out_queue_all (around.pass_err i) 0 (fetched cache md5 settings net around i t r).1
            (live.passing i))
          (get_file_range_from_remote-IsSegment content t.range_start_pos t.range_end_pos
            (around.servers i) net.connection v.honest net.is_cluster net.official_domain
            net.attempts net.decompress r.domain (omega arith) v.done)

    out_kind-IsSegment :
        (i : ℕ) (t : DownloadTask) (kind : Kind)
        → t.range_start_pos < t.range_end_pos
        → HasSource i t kind
        → IsSegment content t.range_start_pos t.range_end_pos
            (joined (out_kind cache md5 settings net around i t kind))
    unfolding out_kind
    out_kind-IsSegment i t cached h v = from_cache i t h v
    out_kind-IsSegment i t (remote r) h v = from_servers i t r h v

    -- The empty chunk adds nothing.
    past_first :
        (b : Bool) (l : List (List ℕ)) → joined ((if b then [] ∷ [] else []) ++ l) ≡ joined l
    past_first true l = refl
    past_first false l = refl

    pub out_tasks-IsSegment :
        (i s e : ℕ) (tasks : List DownloadTask)
        → Tiles s e tasks
        → HaveSources i tasks
        → IsSegment content s e (joined (out_tasks cache md5 settings net around i tasks))
    unfolding out_tasks
    out_tasks-IsSegment i s e [] tiles v = record {
      size = omega (arith, tiles);
      bytes = λ k lt. absurd (omega arith);
    }
    out_tasks-IsSegment i s e (t ∷ tasks) (at, more, tiles) (v, vs) =
        let sent = out_kind cache md5 settings net around i t t.kind in
        let others = out_tasks cache md5 settings net around (i + 1) tasks in
        let this = out_kind-IsSegment i t t.kind (omega (arith, at, more)) v in
        let rest = out_tasks-IsSegment (i + 1) t.range_end_pos e tasks tiles vs in
        rw (live.before i) (
          rw (past_first (i == 0) (sent ++ others)) (
            rw (joined-append sent others) (
              subst (λ a. IsSegment content a e (joined sent ++ joined others)) at
                (IsSegment-append content t.range_start_pos t.range_end_pos e _ _ this rest))))
