-- ===== src/Bucket.antt =====
-- catalog/s3.go: what the program does around the S3 client. The client is a parameter.
pub mod Keys
pub mod Listing
pub mod Pairing
pub mod Delete
pub mod Gone
