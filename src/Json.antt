-- ===== src/Json.antt =====
-- src/jsonl.hpp and src/jsonl.cpp: JSON values, their text and the parser. An index into the text
-- is modelled by the bytes from there on: `s[i]` is the head, and at the end the parser's tests on
-- `s[i]` (the terminating zero byte) all fail. `std::map` is a list of members sorted by key.
-- The conversions of `double` are arguments: `print` is `operator<<`, `stod` is `std::stod`, with
-- `none` where it throws.
pub mod Text
pub mod Value
pub mod Parser
pub mod Strings
pub mod Render
pub mod Layout
pub mod Steps
pub mod Shapes
pub mod Length
pub mod RoundTrip
pub mod Lines
pub mod Fuel
