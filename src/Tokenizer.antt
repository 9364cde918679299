-- ===== src/Tokenizer.antt =====
-- src/utils/tokenizer.c and src/utils/tokenizer_fast_req.c: the body of a POST request, a list
-- key=value&key=value, becomes a request of the dubbo protocol.
--   Simd         the search for a byte, sixteen bytes at a time
--   First        counts of trailing zeros as the place of the first byte looked for
--   Scan         what the searches of the C code return
--   Split        where the keys and the values of the body end
--   Fields       one round of the loops of the splits
--   Offsets      those ends in a form key=value&key=value
--   Splits       the vector splits on a form
--   Serialize    one value, with its URL escapes decoded
--   Hex          hexadecimal digits
--   Decode       URL escapes of a value
--   Lookup       which field of a form is written for a key
--   Request      the dubbo request of a form, as a list
--   Whole        generate_res_in_place on a form
--   Package      the header, the body, the whole request
--   Fast         requests with the fixed parts left out, and from them the whole request
--   Fixed        the requests that are made of the parameter alone
--   FastRequest  the fast request against the hard-coded one
pub mod Simd
pub mod First
pub mod Scan
pub mod Split
pub mod Fields
pub mod Offsets
pub mod Splits
pub mod Serialize
pub mod Hex
pub mod Decode
pub mod Lookup
pub mod Request
pub mod Whole
pub mod Package
pub mod Fast
pub mod Fixed
pub mod FastRequest
mod Tests
