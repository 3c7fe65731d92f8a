-- ===== src/Storage/Chunks.antt =====
-- The chunk loop of apps/_tasks/integration/storage/google_drive.py and onedrive.py, which the two
-- files write out alike: a file is its list of bytes, and a response is what the client makes of it.
pub mod Reads
pub mod Tiled
use backupsheep.Prelude.{
  ℕ, zero, suc, ◌+◌, ◌-◌, ◌*◌, ◌/◌, List, [], ◌∷◌, Option, none, some, ◌==◌, length, take, drop,
  if◌then◌else◌,
}
use backupsheep.Model.Rows.{Text}
use backupsheep.Storage.Failures.{Failure}

abbrev pub Bytes : Type 0
Bytes = List ℕ

-- One `put`: its headers and its data. `range_last` is the `end_index - 1` of the header.
pub record Put : Type 0 where
  pub content_length : ℕ
  pub range_start : ℕ
  pub range_last : ℕ
  pub total : ℕ
  pub content : Bytes

-- What the client does after a response: it goes on with the file id it knows, or an error is raised.
pub data Reply : Type 0 where
  go_on : Option Text → Reply
  stop : Failure → Reply

-- `content_length` is the header as a function of the size of the file; `reply` is given the number
-- of the request, the request and the file id known so far.
pub record Wire : Type 0 where
  pub chunk_size : ℕ
  pub content_length : ℕ → ℕ
  pub reply : ℕ → Put → Option Text → Reply

-- The requests of a chunked upload in their order, the file id it ends with, and what it raised.
pub record Sent : Type 0 where
  pub puts : List Put
  pub file_id : Option Text
  pub raised : Option Failure

-- `end_index`
unfoldable pub end_index : ℕ → ℕ → ℕ → ℕ
end_index chunk_size total i =
    if i == total / chunk_size
    then i * chunk_size + (total - chunk_size * (total / chunk_size))
    else i * chunk_size + chunk_size

unfoldable pub put_of : Wire → ℕ → ℕ → Bytes → Put
unfolding end_index
put_of w total i content = record {
  content_length = w.content_length total;
  range_start = i * w.chunk_size;
  range_last = end_index w.chunk_size total i - 1;
  total = total;
  content = content;
}

unfoldable pub resume : Reply → Put → Option Text → (Option Text → Sent) → Sent
resume (stop e) p id more = record { puts = p ∷ []; file_id = id; raised = some e }
resume (go_on new) p id more =
    let rest = more new in
    record { puts = p ∷ rest.puts; file_id = rest.file_id; raised = rest.raised }

-- The `while True` from its `i`-th round on, with what is left of the file to read. `f.read` gives
-- nothing only at the end of the file, since `chunk_size` is not 0.
unfoldable pub send_from : Wire → ℕ → ℕ → ℕ → Bytes → Option Text → Sent
unfolding resume put_of
send_from w total zero i rest id = record { puts = []; file_id = id; raised = none }
send_from w total (suc fuel) i [] id = record { puts = []; file_id = id; raised = none }
send_from w total (suc fuel) i (b ∷ bs) id =
    let p = put_of w total i (take w.chunk_size (b ∷ bs)) in
    resume (w.reply i p id) p id
      (λ new. send_from w total fuel (suc i) (drop w.chunk_size (b ∷ bs)) new)

-- A round reads at least one byte: as many rounds as the file has bytes, and one that finds its end.
unfoldable pub send_chunks : Wire → Bytes → Option Text → Sent
unfolding send_from
send_chunks w file id = send_from w (length file) (suc (length file)) 0 file id
