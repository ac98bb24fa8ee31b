-- ===== src/Messages.antt =====
-- messages/: the bodies of the market data messages and their parsers. A body pointer with its length
-- is `none` for a null pointer, else the bytes. A char is kept as its byte: the code only compares it
-- with ASCII characters. `none` from a parser is `return false`; what stands in `out_msg` then is not
-- modelled, since every caller drops it.
pub mod ParserUtils
pub mod Empty
pub mod I010
pub mod PriceFields
pub mod I081
pub mod I083
pub mod Wire
