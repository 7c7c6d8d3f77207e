-- ===== src/Tests/Samples.antt =====
-- The inputs of the tests.
use jsonstreambench.Prelude.{ℕ, Option, some, Bytes, codes, replicate}

-- Three lines, the second of them blank.
abbrev pub two_documents : Bytes
two_documents = codes "{}\n \r\n[1]"

-- Two records of more than five bytes, and a short line between them.
abbrev pub two_records : Bytes
two_records = codes "[1,2,3]\r\n[]\n{\"a\":1}\n"

-- An allocation that succeeds.
abbrev pub zeros : ℕ → Option Bytes
zeros n = some (replicate n 0)
