-- ===== src/Fetch/Chunks.antt =====
-- What reading the chunks of an answer changes.
use dingospeed.Base.{
  ℕ, ◌+◌, ◌≡◌, refl, sym, ◌∙◌, List, [], ◌∷◌, ◌++◌, append-nil, append_assoc, false, length,
  length-append, arith,
}
use dingospeed.CacheRead.Laws.{joined}
use dingospeed.Fetch.{FetchState, take_chunk, take_chunks}

joined-snoc : (xs : List (List ℕ)) (c : List ℕ) → joined (xs ++ (c ∷ [])) ≡ joined xs ++ c
joined-snoc [] c = append-nil c
joined-snoc (x ∷ xs) c = rw (joined-snoc xs c) (sym (append_assoc x (joined xs) c))

-- What reading chunks without an encoding changes.
pub record Took (s t : FetchState) (bs : List ℕ) : Type 0 where
  pub all_sent : joined t.sent ≡ joined s.sent ++ bs
  pub counted : t.chunk_byte_len ≡ s.chunk_byte_len + length bs
  pub same_start : t.range_start ≡ s.range_start
  pub same_requests : t.requests ≡ s.requests
  pub same_context : t.context_done ≡ s.context_done
  pub plain : t.content_encoded ≡ false

take_chunk-Took :
    (s : FetchState) (c : List ℕ) → s.content_encoded ≡ false → Took s (take_chunk s c) c
unfolding take_chunk
take_chunk-Took s [] e = record {
  all_sent = sym (append-nil (joined s.sent));
  counted = omega arith;
  same_start = refl;
  same_requests = refl;
  same_context = refl;
  plain = e;
}
take_chunk-Took s (b ∷ c) e = record {
  all_sent = ground (arith, e, joined-snoc s.sent (b ∷ c));
  counted = ground (arith, e);
  same_start = ground (arith, e);
  same_requests = ground (arith, e);
  same_context = ground (arith, e);
  plain = ground (arith, e);
}

pub take_chunks-Took :
    (s : FetchState) (cs : List (List ℕ))
    → s.content_encoded ≡ false
    → Took s (take_chunks s cs) (joined cs)
unfolding take_chunks
take_chunks-Took s [] e = record {
  all_sent = sym (append-nil (joined s.sent));
  counted = omega arith;
  same_start = refl;
  same_requests = refl;
  same_context = refl;
  plain = e;
}
take_chunks-Took s (c ∷ cs) e =
    let first = take_chunk-Took s c e in
    let rest = take_chunks-Took (take_chunk s c) cs first.plain in
    record {
      all_sent = rest.all_sent ∙ rw first.all_sent (append_assoc (joined s.sent) c (joined cs));
      counted = omega (arith, rest.counted, first.counted, length-append c (joined cs));
      same_requests = rest.same_requests ∙ first.same_requests;
      same_start = rest.same_start ∙ first.same_start;
      same_context = rest.same_context ∙ first.same_context;
      plain = rest.plain;
    }
