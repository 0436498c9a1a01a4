-- ===== src/Cloud/S3/Spool.antt =====
-- backend/s3/s3.go: fixedLengthBody, with contextReader. While a body is copied to a temporary file,
-- the context is asked once, before the first read.
use sharp_store.Prelude.{[], ℕ, Option, none, some, List, Text}
use sharp_store.Errors.{Outcome, Result, ok, err}
use sharp_store.Backend.{Reader}
use sharp_store.Os.{Os}
use sharp_store.Os.{Io, copy_to, sync_or_close, remove, ignore, at_path, Node, file, directory}
use sharp_store.Prelude.Integers.{ℤ, pos}
use sharp_store.Cloud.Bodies.{Kind, sized, seeker, stream, distance, restore_error}
use sharp_store.Prelude.{length}

-- what a body is uploaded as: the reader, its length, and the temporary file that is removed later
pub record Upload : Type 0 where
  pub body : Reader
  pub content_length : Option ℤ
  pub temporary : Option Text

abbrev pub in_place : Reader → Option ℤ → Upload
in_place body content_length = record {
  body = body;
  content_length = content_length;
  temporary = none;
}

-- contextReader, which fails with the context
abbrev pub context_reader : Outcome → Reader → Reader
context_reader none r = r
context_reader (some e) r = record { content = []; failure = some e }

abbrev pub bytes_of : Option Node → List ℕ
bytes_of (some (file c m)) = c
bytes_of (some directory) = []
bytes_of none = []

-- the body that a temporary file gives from its beginning on
abbrev pub spooled : Text → Os → Upload
spooled temporary os = record {
  body = record { content = bytes_of (at_path temporary os); failure = none };
  content_length = some (pos (length (bytes_of (at_path temporary os))));
  temporary = some temporary;
}

-- cleanup
unfoldable pub cleanup : Option Text → Os → Os
unfolding ignore sync_or_close remove
cleanup none os = os
cleanup (some temporary) os = ((ignore (remove temporary)) ((ignore sync_or_close os).1)).1

abbrev pub spool_ended : Text → Result (Unit {0}) × Os → Result Upload × Os
spool_ended temporary (ok u, os) = (ok (spooled temporary os), os)
spool_ended temporary (err e, os) = (err e, cleanup (some temporary) os)

-- (*os.File).Seek to the beginning, which is one more call that can fail
abbrev pub rewound : Result (Unit {0}) × Os → Result (Unit {0}) × Os
rewound (ok u, os) = sync_or_close os
rewound (err e, os) = (err e, os)

abbrev pub spool_into : Reader → Result Text × Os → Result Upload × Os
spool_into reader (err e, os) = (err e, os)
spool_into reader (ok temporary, os) = spool_ended temporary (rewound (copy_to temporary reader os))

abbrev pub spool_unless : Result ℕ → ℕ → Outcome → Reader → Io Upload → Io Upload
spool_unless (ok end) current none body spool os =
    (ok (in_place body (some (distance end current))), os)
spool_unless end current (some e) body spool os = (err (restore_error e), os)
spool_unless (err e) current none body spool os = spool os

-- fixedLengthBody
unfoldable pub fixed_length_body : Kind → Io Text → Outcome → Reader → Io Upload
unfolding distance copy_to sync_or_close cleanup
fixed_length_body (sized n) create_temp ended body os = (ok (in_place body (some (pos n))), os)
fixed_length_body (seeker (ok current) end reset) create_temp ended body os =
    spool_unless end current reset body
      (λ os₁. spool_into (context_reader ended body) (create_temp os₁)) os
fixed_length_body (seeker (err e) end reset) create_temp ended body os =
    spool_into (context_reader ended body) (create_temp os)
fixed_length_body stream create_temp ended body os =
    spool_into (context_reader ended body) (create_temp os)
