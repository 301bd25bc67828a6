-- ===== src/Ioutil/BufRead.antt =====
-- ioutil/buf_read.go: what an io.Reader hands out of a message at once, and what it keeps. Writing to
-- a bytes.Buffer does not fail.
use dmsg.Prelude.{ℕ, List, ◌++◌, length, take, drop, ltb, if◌then◌else◌}

-- BufRead on a reader's slice of k bytes: the bytes copied, and the buffer.
unfoldable pub buf_read : List ℕ → List ℕ → ℕ → List ℕ × List ℕ
buf_read buf msg k =
    let n = length (take k msg) in
    (take k msg, if ltb n (length msg) then buf ++ drop n msg else buf)
