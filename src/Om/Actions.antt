-- ===== src/Om/Actions.antt =====
-- include/hl/om/Actions.h and src/om/Actions.cpp: the actions that are sent, each in two encodings.
-- A builder gives the calls of the MessagePack writer, in order, and the JSON text; Wire.antt has the
-- types, Order.antt and Others.antt the builders, and Tree.antt and Trees.antt the specification.
pub mod Wire
pub mod Order
pub mod Others
pub mod Tree
pub mod Trees
pub mod Agreement
pub mod Requests
mod Margin
mod Runs
