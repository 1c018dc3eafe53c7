-- ===== src/Ranges/Split.antt =====
-- splitRemoteRange: the pieces of a remote range.
use dingospeed.Base.{
  ℕ, zero, suc, ◌+◌, ◌-◌, ◌≤◌, ◌<◌, ◌≢◌, refl, arith, ltb, ◌==◌, tests, Bool-cases, inl, inr,
  if◌then◌else◌,
}
use dingospeed.Task.{Config, TaskParam, DownloadTask, create_remote_task}
use dingospeed.Ranges.{split_loop, split_remote_range}
use dingospeed.Ranges.Tiling.{Plan}

module _ (c : Config) (p : TaskParam) (P : DownloadTask → Type 0) where
  split_loop-Plan :
      (fuel s e n : ℕ)
      → ((m a b : ℕ)
          → s ≤ a
          → a < b
          → b ≤ e
          → b ≤ a + c.remote_file_range_size
          → P (create_remote_task c m a b p))
      → c.remote_file_range_size ≢ 0
      → s ≤ e
      → e ≤ s + fuel
      → Plan P s e n (split_loop c p fuel s e n).1 (split_loop c p fuel s e n).0
  unfolding split_loop create_remote_task
  split_loop-Plan zero s e n each pos hs hf = (omega arith, refl)
  split_loop-Plan (suc fuel) s e n each pos hs hf = elim (Bool-cases (ltb s e)) [
    | inr done ↦ rw done (omega tests, refl)
    | inl more ↦
        let next : ℕ =
          (let whole = s + c.remote_file_range_size in if ltb e whole then e else whole) in
        let up : s < next = ground (arith, more) in
        let top : next ≤ e = ground (arith, more) in
        let short : next ≤ s + c.remote_file_range_size = ground (arith, more) in
        rw more (
          refl,
          up,
          refl,
          each n s next (omega arith) up top short,
          split_loop-Plan fuel next e (n + 1) (λ m a b ha. each m a b (omega (arith, up, ha))) pos
              top (omega (arith, up)),
        )
  ]

  -- With a range size of 0 there is one piece, of any length.
  pub split_remote_range-Plan :
      (s e n : ℕ)
      → ((m a b : ℕ)
          → s ≤ a
          → a < b
          → b ≤ e
          → (c.remote_file_range_size ≢ 0 → b ≤ a + c.remote_file_range_size)
          → P (create_remote_task c m a b p))
      → s < e
      → Plan P s e n (split_remote_range c p s e n).1 (split_remote_range c p s e n).0
  unfolding split_remote_range create_remote_task
  split_remote_range-Plan s e n each h = elim (Bool-cases (c.remote_file_range_size == 0)) [
    | inl whole ↦ rw whole (
      refl,
      h,
      refl,
      each n s e (omega arith) h (omega arith) (λ q. absurd (q (omega tests))),
      (refl, refl),
    )
    | inr parts ↦ rw parts (
        split_loop-Plan (e - s) s e n (λ m a b ha hb hc hd. each m a b ha hb hc (λ _. hd))
          (omega tests) (omega arith) (omega arith))
  ]
