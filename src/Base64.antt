-- ===== src/Base64.antt =====
-- The Base64 codecs of helloworld/bs64.h and openssl/sign.cpp (`b_base64_encode`,
-- `b_base64_decode`, `h_base64_encode`, `h_base64_decode`) and of helloworld/test_bs64.cc
-- (`base64_encode`, `base64_decode`). A string is the list of its bytes.
pub mod Alphabet
pub mod Encode
pub mod Decode
pub mod TestDecode
pub mod Shape
pub mod FileCodec
pub mod Bitwise
pub mod Cells
pub mod FileRoundTrip
pub mod Agree
pub mod DecodeLoop
pub mod RoundTrip
pub mod TestRounds
pub mod TestAgree
mod Tests
