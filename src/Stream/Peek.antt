-- ===== src/Stream/Peek.antt =====
-- What `data_get_data` and `data_get_parse_block` of src/stream.c show of the text ahead.
use colm.Prelude.{
  ℕ, zero, suc, ◌-◌, ◌≤◌, ◌<◌, ◌≡◌, refl, sym, ap, ◌∙◌, List, [], ◌∷◌, ◌++◌, Option, some, arith,
  ◌==◌, length, length-append, take, drop, min, length-take, take-append_add, take_all,
  drop-append_add, Bool-cases, inl, inr, ◌⊎◌,
}
use mathlib.Core.List.{append-nil}
use colm.Stream.Buffers.{RunBuf, fsm_bufsize, new_run_buf, contents, IsQueue}
use colm.Stream.Data.{StreamData}
use colm.Stream.Consume.{take-min}
use colm.Stream.Read.{
  Walked, copied, ran_out, copy_bufs, Found, block, at_end, skip_bufs, Block, input_data, input_eod,
  received_buf, fetch, fetch_rest, fetch_block, data_get_data, data_get_parse_block,
}
use colm.Stream.Walk.{
  contents-append, IsQueue-append, IsWalked, copy_bufs-IsWalked, IsFound, skip_bufs-IsFound,
  received-IsQueue,
}

module _ {S : Type 0} (get_data_source : ℕ → S → List ℕ × S)
    (bounded : (n : ℕ) (s : S) → length (get_data_source n s).0 ≤ n) where
  -- the last thing that was asked of the source was for bytes, and it had none
  abbrev pub IsDry : S → Type 0
  IsDry source =
      (s : S) × (length (get_data_source fsm_bufsize s).0 ≡ 0)
      × ((get_data_source fsm_bufsize s).1 ≡ source)

  -- what the rounds that fetch give: as many bytes as asked, or else the source has come to an end
  record IsFetched (n : ℕ) (o : Option (List ℕ × List RunBuf × S)) : Type 0 where
    bytes : List ℕ
    bufs : List RunBuf
    source : S
    ends : o ≡ some (bytes, bufs, source)
    shows : bytes ≡ take n (contents bufs)
    is_queue : IsQueue bufs
    full : (length bytes ≡ n) ⊎ IsDry source

  fetch-IsFetched : (f n : ℕ) (s : S) → n < f → IsFetched n (fetch get_data_source f n s)
  unfolding fetch new_run_buf
  fetch-IsFetched zero n s h = absurd (omega arith)
  fetch-IsFetched (suc f) n s h =
      let b : List ℕ = (get_data_source fsm_bufsize s).0 in
      let s' : S = (get_data_source fsm_bufsize s).1 in
      let slen : ℕ = min (length b) n in
      let buf : RunBuf = received_buf b in
      let cut : take slen b ≡ take n b = take-min n b in
      let is : IsQueue (buf ∷ []) = received-IsQueue b (bounded fsm_bufsize s) in
      elim (Bool-cases (length b == 0)) [
        | inl dry ↦ record {
          bytes = [];
          bufs = [];
          source = s';
          ends = rw dry refl;
          shows = sym (take_all n [] (omega arith));
          is_queue = tt;
          full = inr (s, ground arith, refl);
        }
        | inr wet ↦ elim (Bool-cases (n - slen == 0)) [
          | inl stop ↦ record {
            bytes = take slen b;
            bufs = buf ∷ [];
            source = s';
            ends = rw (wet, stop) refl;
            shows = cut ∙ ap (take n) (sym (append-nil b));
            is_queue = is;
            full = inl (ground (arith, length-take slen b));
          }
          | inr go ↦
              let r = fetch-IsFetched f (n - slen) s' (ground arith) in
              let all : take slen b ≡ b = cut ∙ take_all n b (ground arith) in
              record {
                bytes = take slen b ++ r.bytes;
                bufs = buf ∷ r.bufs;
                source = r.source;
                ends = rw (wet, go, r.ends) refl;
                shows =
                    ap (λ x. x ++ r.bytes) all
                    ∙ ap (λ x. b ++ x) r.shows
                    ∙ sym (take-append_add n (n - slen) b (contents r.bufs) (ground arith));
                is_queue = (is.0, r.is_queue);
                full = elim r.full [
                  | inl e ↦
                      inl (ground (arith, length-append (take slen b) r.bytes, length-take slen b))
                  | inr e ↦ inr e
                ];
              }
        ]
      ]

  -- `o` shows the first `n` bytes of what the stream holds and will hold
  pub record IsShown (n : ℕ) (ss : StreamData S) (o : Option (List ℕ × StreamData S)) : Type 0 where
    pub bytes : List ℕ
    pub after : StreamData S
    pub ends : o ≡ some (bytes, after)
    pub more : List ℕ
    pub holds : contents after.queue ≡ contents ss.queue ++ more
    pub shows : bytes ≡ take n (contents after.queue)
    pub is_queue : IsQueue after.queue
    pub full : (length bytes ≡ n) ⊎ IsDry after.source

  show :
      (n : ℕ) (ss : StreamData S) (w : Walked)
      → IsQueue ss.queue
      → IsWalked n (contents ss.queue) w
      → IsShown n ss (fetch_rest get_data_source w ss)
  unfolding fetch_rest
  show n ss (copied bytes) q (is, le) = record {
    bytes = bytes;
    after = ss;
    ends = refl;
    more = [];
    holds = sym (append-nil (contents ss.queue));
    shows = is;
    is_queue = q;
    full = inl (ap length is ∙ omega (arith, length-take n (contents ss.queue)));
  }
  show n ss (ran_out bytes left) q (is, le) =
      let r = fetch-IsFetched (suc left) left ss.source (omega arith) in
      let t : List ℕ = contents ss.queue in
      let both = contents-append ss.queue r.bufs in
      record {
        bytes = bytes ++ r.bytes;
        after = record ss { queue = ss.queue ++ r.bufs; source = r.source };
        ends = rw r.ends refl;
        more = contents r.bufs;
        holds = both;
        shows =
            ap (λ x. x ++ r.bytes) is
            ∙ ap (λ x. t ++ x) r.shows
            ∙ sym (take-append_add n left t (contents r.bufs) le)
            ∙ ap (take n) (sym both);
        is_queue = IsQueue-append ss.queue r.bufs q r.is_queue;
        full = elim r.full [
          | inl full ↦
              inl (length-append bytes r.bytes ∙ omega (arith, ap {A = List ℕ} length is, full, le))
          | inr dry ↦ inr dry
        ];
      }

  -- For a well-formed queue and a source that never gives more than it is asked for:
  -- `data_get_data` ends, and shows the first `n` bytes of what the stream holds and of what it has
  -- fetched behind that; it shows fewer only if the source had no more. It takes nothing away.
  pub data_get_data-IsShown :
      (n : ℕ) (ss : StreamData S)
      → IsQueue ss.queue
      → IsShown n ss (data_get_data get_data_source n ss)
  unfolding data_get_data
  data_get_data-IsShown n ss q = show n ss (copy_bufs n ss.queue) q (copy_bufs-IsWalked n ss.queue)

  -- what `data_get_parse_block` answers: a block of the text behind the skipped bytes, or that there
  -- is none
  abbrev pub Answers : ℕ → StreamData S → Block → StreamData S → Type 0
  Answers skip ss (input_data bytes) after =
      (0 < length bytes) × (rest : List ℕ) × (drop skip (contents after.queue) ≡ bytes ++ rest)
  Answers skip ss input_eod after =
      (skip ≡ length (contents ss.queue))
      × (contents after.queue ≡ contents ss.queue)
      × IsDry after.source

  answer :
      (skip : ℕ) (ss : StreamData S) (f : Found)
      → IsQueue ss.queue
      → skip ≤ length (contents ss.queue)
      → IsFound skip (contents ss.queue) f
      → ((fetch_block get_data_source f ss).1 ≡ 0)
        × IsQueue (fetch_block get_data_source f ss).2.queue
        × Answers skip ss (fetch_block get_data_source f ss).0 (fetch_block get_data_source f ss).2
  unfolding fetch_block new_run_buf
  answer skip ss (block bytes) q le (lt, some', rest, is) = (refl, q, (some', rest, is))
  answer skip ss (at_end left) q le is =
      let b : List ℕ = (get_data_source fsm_bufsize ss.source).0 in
      let t : List ℕ = contents ss.queue in
      elim (Bool-cases (length b == 0)) [
        | inl dry ↦ rw dry (omega arith, q, (omega arith, refl, (ss.source, ground arith, refl)))
        | inr wet ↦ rw wet (
          omega arith,
          IsQueue-append ss.queue (received_buf b ∷ []) q
              (received-IsQueue b (bounded fsm_bufsize ss.source)),
          (
            ground arith,
            [],
            ap (drop skip) (contents-append ss.queue (received_buf b ∷ []))
                ∙ drop-append_add skip 0 t (b ++ []) (omega arith),
          ),
        )
      ]

  -- For a well-formed queue, a source that never gives more than it is asked for, and no more bytes
  -- to skip than the queue holds: `data_get_parse_block` leaves nothing to skip and a well-formed
  -- queue. With INPUT_DATA it gives a block, not empty, that stands behind the skipped bytes; with
  -- INPUT_EOD it has skipped all there is and the source has no more.
  pub data_get_parse_block-Answers :
      (skip : ℕ) (ss : StreamData S)
      → IsQueue ss.queue
      → skip ≤ length (contents ss.queue)
      → ((data_get_parse_block get_data_source skip ss).1 ≡ 0)
        × IsQueue (data_get_parse_block get_data_source skip ss).2.queue
        × Answers skip ss
            (data_get_parse_block get_data_source skip ss).0
            (data_get_parse_block get_data_source skip ss).2
  unfolding data_get_parse_block
  data_get_parse_block-Answers skip ss q le =
      answer skip ss (skip_bufs skip ss.queue) q le (skip_bufs-IsFound skip ss.queue le)
