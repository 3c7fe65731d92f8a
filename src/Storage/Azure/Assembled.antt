-- ===== src/Storage/Azure/Assembled.antt =====
-- The blob that the staged blocks make.
use backupsheep.Prelude.{
  ℕ, zero, suc, ◌≤◌, ◌<◌, ◌≡◌, refl, false, List, [], ◌∷◌, ◌++◌, Option, none, some, length, drop,
  All, Bool-cases, inl, inr, if◌then◌else◌, arith,
}
use backupsheep.Prelude.Text.{text_eq, text_eq-≡, text_eq_self}
use backupsheep.Model.Status.{PointStatus}
use backupsheep.Model.Rows.{Text}
use backupsheep.Upload.{Backend}
use backupsheep.Storage.Failures.{Failure, file_not_found, resumable_upload, failed, raise_failed}
use backupsheep.Storage.Chunks.{Bytes}
use backupsheep.Storage.Chunks.Reads.{take-drop, length-take_bounds, length-take_some, length-read}
use backupsheep.Storage.Objects.{Zip, nested_name, object_key}
use backupsheep.Storage.Azure.{
  Block, Azure, Staged, azure_chunk, after_stage, stage_from, staged, block_list, azure_end, commit,
  send_blocks, storage_azure,
}

-- The block of an id among those staged
abbrev lookup : Text → List Block → Option Bytes
lookup id [] = none
lookup id (b ∷ bs) = if text_eq id b.0 then some b.1 else lookup id bs

join : Option Bytes → Option Bytes → Option Bytes
join (some b) (some rest) = some (b ++ rest)
join _ _ = none

-- The blob of a committed list of ids: the staged blocks of these ids in the order of the list.
unfoldable pub assemble : List Block → List Text → Option Bytes
unfolding join
assemble blocks [] = some []
assemble blocks (id ∷ ids) = join (lookup id blocks) (assemble blocks ids)

-- Every block is found under its id.
Found : List Block → List Block → Type 0
Found blocks bs = All (λ b. lookup b.0 blocks ≡ some b.1) bs

-- Different blocks have different ids.
Differing : Azure → Type 0
Differing a = (i j : ℕ) → a.uuid4 i ≡ a.uuid4 j → i ≡ j

-- The blocks hold `bytes` in order, none empty or above the chunk size, with the ids from `i` on.
pub data Split (a : Azure) : ℕ → Bytes → List Block → Type 0 where
  end : {i : ℕ} → Split a i [] []
  block :
      {i : ℕ} {bytes rest : Bytes} {bs : List Block} (content : Bytes)
      → 0 < length content
      → length content ≤ azure_chunk
      → bytes ≡ content ++ rest
      → Split a (suc i) rest bs
      → Split a i bytes ((a.uuid4 i, content) ∷ bs)

after_stage-Split :
    (a : Azure) (i : ℕ) (bytes content rest : Bytes) (c : Option Failure) (s : Staged)
    → 0 < length content
    → length content ≤ azure_chunk
    → bytes ≡ content ++ rest
    → (s.raised ≡ none → Split a (suc i) rest s.blocks)
    → (after_stage c (a.uuid4 i, content) s).raised ≡ none
    → Split a i bytes (after_stage c (a.uuid4 i, content) s).blocks
unfolding after_stage
after_stage-Split a i bytes content rest (some e) s n m cut more ok = cc
after_stage-Split a i bytes content rest none s n m cut more ok = block content n m cut (more ok)

stage_from-Split :
    (a : Azure) (fuel i : ℕ) (rest : Bytes)
    → length rest < fuel
    → (stage_from a fuel i rest).raised ≡ none
    → Split a i rest (stage_from a fuel i rest).blocks
unfolding stage_from
stage_from-Split a zero i rest enough ok = absurd (omega (arith, enough))
stage_from-Split a (suc fuel) i [] enough ok = end
stage_from-Split a (suc fuel) i (b ∷ bs) enough ok =
    let n = length-take_some azure_chunk b bs (omega arith) in
    let left = length-read azure_chunk (b ∷ bs) in
    after_stage-Split a i (b ∷ bs) _ (drop azure_chunk (b ∷ bs)) _ _ n
      (length-take_bounds azure_chunk (b ∷ bs)).0 (take-drop azure_chunk (b ∷ bs))
      (λ fine.
        stage_from-Split a fuel (suc i) (drop azure_chunk (b ∷ bs)) (omega (arith, enough, n, left))
          fine)
      ok

differ : (s t : Text) → (s ≡ t → ⊥) → text_eq s t ≡ false
differ s t h = elim (Bool-cases (text_eq s t)) [ inl e ↦ absurd (h (text_eq-≡ s t e)) | inr e ↦ e ]

Split-fresh :
    (a : Azure) (k i : ℕ) (bytes : Bytes) (bs : List Block)
    → Differing a
    → k < i
    → Split a i bytes bs
    → All (λ b. text_eq b.0 (a.uuid4 k) ≡ false) bs
unfolding Differing
Split-fresh a k i bytes bs d lt end = tt
Split-fresh a k i bytes bs d lt (block content n m cut more) = (
  differ _ _ (λ e. absurd (omega (arith, lt, d i k e))),
  Split-fresh a k (suc i) _ _ d (omega (arith, lt)) more,
)

Found-cons :
    (x : Block) (blocks bs : List Block)
    → All (λ b. text_eq b.0 x.0 ≡ false) bs
    → Found blocks bs
    → Found (x ∷ blocks) bs
unfolding Found
Found-cons x blocks [] other h = tt
Found-cons x blocks (b ∷ bs) other h = (simp (other.0) h.0, Found-cons x blocks bs other.1 h.1)

Split-Found :
    (a : Azure) (i : ℕ) (bytes : Bytes) (bs : List Block)
    → Differing a
    → Split a i bytes bs
    → Found bs bs
unfolding Found
Split-Found a i bytes bs d end = tt
Split-Found a i bytes bs d (block content n m cut more) = (
  simp (text_eq_self (a.uuid4 i)) refl,
  Found-cons _ _ _ (Split-fresh a i (suc i) _ _ d (omega arith) more)
      (Split-Found a (suc i) _ _ d more),
)

Split-assemble :
    (a : Azure) (i : ℕ) (bytes : Bytes) (blocks bs : List Block)
    → Split a i bytes bs
    → Found blocks bs
    → assemble blocks (block_list bs) ≡ some bytes
unfolding assemble Found join
Split-assemble a i bytes blocks bs end h = refl
Split-assemble a i bytes blocks bs (block content n m cut more) h =
    simp (h.0, Split-assemble a (suc i) _ blocks _ more h.1, cut) refl

committed :
    (a : Azure) (key : Text) (blocks : List Block) (r : Option Failure)
    → commit a key blocks r ≡ none
    → (r ≡ none) × (a.commit_block_list key (block_list blocks) ≡ none)
unfolding commit
committed a key blocks none h = (refl, h)
committed a key blocks (some e) h = cc

Split-small :
    (a : Azure) (i : ℕ) (bytes : Bytes) (bs : List Block)
    → Split a i bytes bs
    → All (λ b. length b.1 ≤ azure_chunk) bs
Split-small a i bytes bs end = tt
Split-small a i bytes bs (block content n m cut more) = (m, Split-small a (suc i) _ _ more)

sent :
    (a : Azure) (key : Text) (local : Option Bytes) (c : Option Failure)
    → send_blocks a key local c ≡ none
    → (file : Bytes) × (local ≡ some file)
      × ((staged a file).raised ≡ none)
      × (a.commit_block_list key (block_list (staged a file).blocks) ≡ none)
unfolding send_blocks
sent a key local (some e) h = cc
sent a key none none h = cc
sent a key (some file) none h = let (fine, done) = committed a key _ _ h in (file, refl, fine, done)

azure_end-key :
    (key : Text) (c : Option Failure) (id : Option Text)
    → azure_end key c ≡ Backend.leaves PointStatus.upload_complete id
    → (c ≡ none) × (id ≡ some key)
unfolding azure_end raise_failed
azure_end-key key none id h = (refl, cc)
azure_end-key key (some file_not_found) id h = cc
azure_end-key key (some (resumable_upload t)) id h = cc
azure_end-key key (some (failed t)) id h = cc

-- A storage point that `storage_azure` leaves complete has the key of the zip as its file id, and the
-- list committed under this key makes the local zip again: the staged blocks of its ids, put together
-- in the order of the list, are the bytes of the zip, and each block is at most 4 MiB. The ids of
-- different blocks are taken to differ.
pub storage_azure-assemble :
    (a : Azure) (z : Zip) (local : Option Bytes) (id : Option Text)
    → ((i j : ℕ) → a.uuid4 i ≡ a.uuid4 j → i ≡ j)
    → storage_azure a z local ≡ Backend.leaves PointStatus.upload_complete id
    → (file : Bytes) × (local ≡ some file)
      × (id ≡ some (object_key a.prefix (nested_name z)))
      × (a.commit_block_list
            (object_key a.prefix (nested_name z))
            (block_list (staged a file).blocks)
          ≡ none)
      × (assemble (staged a file).blocks (block_list (staged a file).blocks) ≡ some file)
      × All (λ b. length b.1 ≤ azure_chunk) (staged a file).blocks
unfolding storage_azure staged Differing
storage_azure-assemble a z local id d h =
    let key = object_key a.prefix (nested_name z) in
    let (fine, same) = azure_end-key key _ id h in
    let (file, at, ok, done) = sent a key local a.connect fine in
    let split = stage_from-Split a (suc (length file)) 0 file (omega arith) ok in
    let blocks = (staged a file).blocks in
    (
      file,
      at,
      same,
      done,
      Split-assemble a 0 file blocks blocks split (Split-Found a 0 file blocks d split),
      Split-small a 0 file blocks split,
    )
