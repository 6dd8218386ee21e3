-- ===== src/Lib.antt =====
-- Fragments: a catalogue of photos that are stored in an S3 bucket, with a web gallery over it.
--
-- The program's parts. catalog/ holds the SQLite catalogue (store.go, query.go), the bucket (s3.go),
-- the run that catalogues what the bucket lists (catalog.go), and the decoding of Fujifilm maker
-- notes into recipes (fuji.go, recipe.go). worker/ runs one background job at a time, a scan or a
-- purge of the rejected photos (coordinator.go, purge.go), and keeps the status that the gallery
-- shows (status.go). server/ and cmd/ call these; web/ is the client.
--
-- The modules.
--   Base        names of the libraries, Boolean tests, lists, signed integers, binary fractions and
--               chunks. A Go float64 that the program stores is a sign and a binary fraction.
--   Store       catalog/store.go, catalog/types.go and catalog/query.go. The state is the record
--               Store: the tables as lists of rows. Rows has Upsert and ExistingETags (upsert,
--               existing_etags), Select has SetRating, SetDecision and photoWhere, Discard has
--               ListDiscarded, StillDiscarded, DeletePhotos, DiscardedSummary and BucketKeyRefs, and
--               Edits the histories of these calls. A statement may fail: fault i is the driver's
--               error at the i-th statement of a call.
--   Albums      catalog/albums.go: the calls that change albums and their members. The foreign keys of
--               the tables, with their cascades, are written out.
--   Pages       catalog/query.go, ListPhotos: the gallery's order, the pages and their cursors. A
--               statement is a filter and a sort of the table; time.Parse, for display, is a parameter.
--   Thumb       catalog/thumb.go: the size and the orientation of thumbnails, with the loops over the
--               pixels. The resampler is a parameter.
--   Library     catalog/recipes.go: the named recipes, with the UNIQUE constraints of their table, and
--               GetPhoto of catalog/query.go, which names a photo's recipe.
--   Backup      catalog/backup.go and ListBackupObjects of catalog/s3.go: the names, the listing and
--               the rotation of backups, drainOldDB and RestoreBackup over the files of a directory.
--               What SQLite and the file system answer is the record Steps, with what SQLite leaves
--               of the old catalogue; IsSqlite says what it promises of that.
--   Auth        server/auth.go: session tokens, CSRF tokens, signing in and its limiter. HMAC-SHA256
--               is a parameter, and time is a number of nanoseconds.
--   Bucket      catalog/s3.go, DeleteObjects and ListPhotos. The S3 client is a parameter over an
--               unknown remote state; IsS3 says what the S3 documentation promises of a call. A
--               listing is the list of the paginator's answers.
--   Status      worker/status.go and applyEvent of worker/coordinator.go: the snapshot of a run and
--               the events that change it. The arithmetic of float64 is a parameter.
--   Purge       worker/purge.go. The state is the record World: the catalogue, the bucket and the
--               thumbnails. For each batch the record Env says what happens around it: cancellation,
--               the edits of other requests before the re-check and before the rows are deleted, and
--               the faults. The events of a run are its output, and Status applies them.
--   Hub         worker/hub.go: the subscribers of the status, and their buffers.
--   Jobs        worker/coordinator.go and StartPurge: how a run or a purge begins and ends, in the
--               record Coordinator. Its goroutine is the list of its events.
--   Scan        catalog/catalog.go: the sequential run, its skip test and ReconcileMissing. Fetching,
--               the EXIF parser and the image codec are the parameter Codec.
--   Workers     worker/coordinator.go, run: the concurrent scan. One goroutine lists and checks photos,
--               a pool processes them, one writes the rows, and run waits for all of them. The state
--               is the record System, with the two channels as bounded lists; a move is one
--               communication or one step of a goroutine, and a schedule is a list of moves. Steps is
--               the same as a relation, and Leads says that each move is one of its steps.
--   Recipe      catalog/recipe.go: the vocabulary, Validate, the neutral defaults, the normal form
--               and the fingerprint, whose digest is a parameter. A read through a nil field is none.
--   Fuji        catalog/fuji.go: the decoder of a maker note over bytes, where a read out of range
--               is none, and recipeFields of catalog/recipe.go.
--   Runs        small inputs, and the theorems at them.
--
-- Bounds and fuel. The loops over photos, batches, entries and elements are recursions on lists or
-- counts. The chunks of a list take its length as fuel, which suffices since a chunk has a member;
-- the digits of n take n + 1. A client that follows the cursors of the gallery asks at most once
-- more than there are photos; a schedule of the concurrent scan is as long as it likes, and its
-- measure is a bound. Go's int is not bounded here; the uint32 offsets of a maker note keep
-- their wrap-around, which is why the decoder's theorem asks for less than 4 GiB of bytes.
--
-- Not modelled: the HTTP handlers of server/ but for sign-in, OpenID Connect, the listings of albums, the
-- command line programs, and what only calls
-- SQLite, the S3 SDK, an EXIF parser or an image codec.
pub mod Base
pub mod Store
pub mod Status
pub mod Auth
pub mod Backup
pub mod Bucket
pub mod Pages
pub mod Purge
pub mod Scan
pub mod Recipe
pub mod Fuji
pub mod Runs
pub mod Albums
pub mod Hub
pub mod Jobs
pub mod Library
pub mod Thumb
pub mod Workers
