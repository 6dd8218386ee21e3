-- ===== src/Runs.antt =====
-- Small inputs for the code of catalog/ and worker/, and the theorems at them.
mod Data
mod Purging
mod Cataloging
mod Selecting
mod Notes
mod Working
mod Scanning
mod Paging
mod Listing
mod Signing
mod Naming
mod Restoring
