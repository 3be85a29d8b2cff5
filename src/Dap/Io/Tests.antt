-- ===== src/Dap/Io/Tests.antt =====
-- The laws of requests and responses at concrete buffers.
use rustprobe.Common.{ℕ, ◌≡◌, refl, some, List, [], ◌∷◌, ◌++◌, length}
use rustprobe.Dap.Io.{Response, put_slice, bytes}
use rustprobe.Dap.Io.Laws.{Appends, put_slice-Appends, bytes_split}

abbrev tail : List ℕ
tail = 7 ∷ 8 ∷ []

abbrev pair : List ℕ
pair = 1 ∷ 2 ∷ []

abbrev reply : Response
reply = record { buf = 5 ∷ 0 ∷ 9 ∷ 9 ∷ []; len = 1 }

abbrev reply' : Response
reply' = record { buf = 5 ∷ 7 ∷ 8 ∷ 9 ∷ []; len = 3 }

appended : put_slice tail reply ≡ some reply'
unfolding put_slice
appended = refl

put_slice-Appends_example : Appends reply tail reply'
put_slice-Appends_example = put_slice-Appends tail reply appended

split_off : bytes 2 (1 ∷ 2 ∷ 3 ∷ []) ≡ some (pair, 3 ∷ [])
unfolding bytes
split_off = refl

bytes_split_example : (length pair ≡ 2) × (pair ++ (3 ∷ []) ≡ 1 ∷ 2 ∷ 3 ∷ [])
bytes_split_example = bytes_split 2 (1 ∷ 2 ∷ 3 ∷ []) split_off
