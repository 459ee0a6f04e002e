-- ===== src/Services/Transfer/Runs.antt =====
-- Tests of the transfers, and the theorems at a file of three bytes in chunks of two.
use s3fuse.Prelude.{ℕ, ◌+◌, ◌≡◌, ◌<◌, ◌≤◌, refl, List, [], ◌∷◌, some, arith}
use s3fuse.Prelude.Code.{Code, success}
use s3fuse.Prelude.Text.{Text, codes}
use s3fuse.Base.Http.{Request, Answer, replied}
use s3fuse.Services.Ranges.{Tiles, parts, fill, parts-Tiles}
use s3fuse.Services.Transfer.{range_request, download_multi}
use s3fuse.Services.Transfer.Download.{nth_range, Fetched, Retried, download_multi-Fetched}
use s3fuse.Threads.ParallelQueue.{Progress}

-- One digit is enough here.
abbrev digit : ℕ → Text
digit n = (48 + n) ∷ []

-- The store repeats its last byte: it sends what the header asks for, one byte more than the part.
abbrev store : ℕ → ℕ → Request → Answer
store i c req =
    replied (record { response_code = 206; response_headers = []; output = 5 ∷ 6 ∷ 7 ∷ [] })

abbrev accepts : ℕ → ℕ → List ℕ → ℕ → Code
accepts i c bytes offset = success

parts_run : parts 3 2 ≡ record { size = 2; offset = 0 } ∷ record { size = 1; offset = 2 } ∷ []
unfolding parts fill
parts_run = refl

-- The last byte of the header's range is the first of the next part.
range_run :
    (range_request digit [] (record { size = 2; offset = 0 })).headers
    ≡ (codes "Range", codes "bytes=0-2") ∷ []
unfolding range_request
range_run = refl

parts-Tiles_example : Tiles 2 3 0 (parts 3 2)
parts-Tiles_example = parts-Tiles 3 2 (omega arith) (omega arith) (omega arith)

download_multi-Fetched_example :
    (t : Progress) × (download_multi digit store accepts 1 2 [] 3 2 ≡ some t)
    × (t.status ≡ success
        → (i : ℕ) → i < 2
        → (c : ℕ) × (c ≤ 1)
          × ((b : ℕ) → b < c → Retried digit store accepts 1 2 [] 3 2 i b)
          × Fetched
              (accepts i c)
              (nth_range 3 2 i)
              (store i c (range_request digit [] (nth_range 3 2 i))))
download_multi-Fetched_example = download_multi-Fetched digit store accepts 1 2 [] 3 2 (omega arith)
