-- ===== src/Epp/Frame.antt =====
-- cmd/internal/eppclient/client.go: `eppReadFrame` and `eppWriteFrame`. A reader is the bytes that
-- are still to come.
use cnnic_gmtls.Base.{
  ℕ, ◌+◌, ◌-◌, ◌*◌, ◌≡◌, ◌<◌, ◌≤◌, refl, arith, List, [], ◌++◌, ◌||◌, ltb, ◌==◌, if◌then◌else◌,
  Outcome, ok, err, eof, ◌>>=◌, ◌>>◌, fail_if, fail, message, length, length-append, take, drop,
  put_uint32, get_uint32, get_uint32-put, take-append, drop-append,
}

-- `io.ReadFull` of `n` bytes: nothing to come is EOF, too little is an error of its own.
unfoldable pub read_exactly : ℕ → List ℕ → Outcome (List ℕ × List ℕ)
read_exactly n stream =
    if ltb (length stream) n
    then (if length stream == 0 then err eof else err (message "unexpected EOF"))
    else ok (take n stream, drop n stream)

unfoldable pub epp_read_frame : List ℕ → Outcome (List ℕ × List ℕ)
epp_read_frame stream = do
  (len_buf, rest) ← read_exactly 4 stream
  (frame_len, _) ← get_uint32 len_buf
  fail_if (ltb frame_len 4 || ltb (10 * 1024 * 1024) frame_len) "invalid EPP frame length: %d"
  read_exactly (frame_len - 4) rest

-- The bytes of the two writes.
unfoldable pub epp_write_frame : List ℕ → List ℕ
epp_write_frame payload = put_uint32 (length payload + 4) ++ payload

read_exactly-append :
    (xs rest : List ℕ) (n : ℕ) → n ≡ length xs → read_exactly n (xs ++ rest) ≡ ok (xs, rest)
unfolding read_exactly
read_exactly-append xs rest n e =
    ground (arith, e, length-append xs rest, take-append xs rest, drop-append xs rest)

-- A frame of at most 10 MB, with its length field, is read as it was written, and what follows
-- it is left.
pub read-write_frame :
    (payload rest : List ℕ)
    → length payload + 4 ≤ 10485760
    → epp_read_frame (epp_write_frame payload ++ rest) ≡ ok (payload, rest)
unfolding epp_read_frame epp_write_frame
read-write_frame payload rest l =
    let n = length payload + 4 in
    let size : n - 4 ≡ length payload = omega arith in
    rw
      (
        read_exactly-append (put_uint32 n) (payload ++ rest) 4 refl,
        get_uint32-put n [] (omega arith),
      )
      (ground (arith, read_exactly-append payload rest (n - 4) size))

-- A larger payload is written too, but its frame is refused.
pub read-write_frame_too_large :
    (payload rest : List ℕ)
    → 10485760 < length payload + 4
    → length payload + 4 < 4294967296
    → epp_read_frame (epp_write_frame payload ++ rest) ≡ fail "invalid EPP frame length: %d"
unfolding epp_read_frame epp_write_frame
read-write_frame_too_large payload rest l k =
    let n = length payload + 4 in
    rw (read_exactly-append (put_uint32 n) (payload ++ rest) 4 refl, get_uint32-put n [] k)
      (ground arith)
