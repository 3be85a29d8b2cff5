-- ===== src/Dap/Io.antt =====
-- dap-async/src/io.rs: bounds-checked request parsing and response assembly.
-- A request is the list of the bytes that are left; a read returns the value and the new request.
-- A response is the whole buffer with the number of bytes written. An append returns the new
-- response, or `none` where the source returns `None` and leaves the response as it was.
pub mod Laws
mod Tests
use rustprobe.Common.{
  ℕ, suc, ◌+◌, ◌%◌, ◌/◌, Option, none, some, List, [], ◌∷◌, ◌++◌, ltb, leb, if◌then◌else◌, length,
  set, take, drop, replicate, min, u16_from_le, u32_from_le, u16_to_le, u32_to_le, write_at,
}

-- `Request::u8`
unfoldable pub u8 : List ℕ → Option (ℕ × List ℕ)
u8 [] = none
u8 (v ∷ rest) = some (v, rest)

-- `Request::bytes`
unfoldable pub bytes : ℕ → List ℕ → Option (List ℕ × List ℕ)
bytes n req = if ltb (length req) n then none else some (take n req, drop n req)

-- `Request::u16`
unfoldable pub u16 : List ℕ → Option (ℕ × List ℕ)
u16 (a ∷ b ∷ rest) = some (u16_from_le a b, rest)
u16 _ = none

-- `Request::u32`
unfoldable pub u32 : List ℕ → Option (ℕ × List ℕ)
u32 (a ∷ b ∷ c ∷ d ∷ rest) = some (u32_from_le a b c d, rest)
u32 _ = none

pub record Response : Type 0 where
  pub buf : List ℕ
  pub len : ℕ

-- `Response::new`
unfoldable pub new : List ℕ → ℕ → Response
new buf command = record { buf = set buf 0 command; len = 1 }

-- `Response::slice`
unfoldable pub put_slice : List ℕ → Response → Option Response
put_slice bs r =
    if leb (r.len + length bs) (length r.buf)
    then some (record { buf = write_at r.buf r.len bs; len = r.len + length bs })
    else none

-- `Response::u8`
unfoldable pub put_u8 : ℕ → Response → Option Response
put_u8 v r =
    if ltb r.len (length r.buf)
    then some (record { buf = set r.buf r.len v; len = r.len + 1 })
    else none

-- `Response::u16`, `Response::u32`
unfoldable pub put_u16 : ℕ → Response → Option Response
unfolding put_slice
put_u16 v = put_slice (u16_to_le v)

unfoldable pub put_u32 : ℕ → Response → Option Response
unfolding put_slice
put_u32 v = put_slice (u32_to_le v)

-- `Response::reserve`: the index of the first of `n` zeroed bytes.
unfoldable pub reserve : ℕ → Response → Option (ℕ × Response)
reserve n r =
    if leb (r.len + n) (length r.buf)
    then some (r.len, record { buf = write_at r.buf r.len (replicate n 0); len = r.len + n })
    else none

-- What a holder of the slice that `Response::reserve_mut` lent stores into it.
unfoldable pub fill : ℕ → List ℕ → Response → Response
fill at bs r = record r { buf = write_at r.buf at bs }

-- `Response::truncate`
unfoldable pub truncate : ℕ → Response → Response
truncate n r = record r { len = min r.len n }

-- `Response::set_u8`, `Response::set_u16`. The processor only names bytes that it has reserved.
unfoldable pub set_u8 : ℕ → ℕ → Response → Response
set_u8 at v r = record r { buf = set r.buf at v }

unfoldable pub set_u16 : ℕ → ℕ → Response → Response
set_u16 at v r = record r { buf = write_at r.buf at (u16_to_le v) }
