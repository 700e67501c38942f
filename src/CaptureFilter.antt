-- ===== src/CaptureFilter.antt =====
-- capture_filter.py: filter expressions for the packet capture. The children follow the source:
-- `Packet` is the decoded packet and its predicates, `Tokens` the scanner, `Parser` the token
-- helpers and the monad, `Primitive` the single conditions, `Grammar` the combinators and
-- `compile_filter`, `Combine` the joining of a capture's fields. `Total`, `Meaning` and `Scan` prove.
pub mod Packet
pub mod Tokens
pub mod Parser
pub mod Primitive
pub mod Grammar
pub mod Syntax
pub mod Scan
pub mod Uses
pub mod Total
pub mod Loops
pub mod Meaning
pub mod Condition
pub mod Combine
pub mod Compile
mod Examples
