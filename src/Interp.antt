-- ===== src/Interp.antt =====
-- The interpreter of LPC, print_expr of lpmud/interpret.c, for the statements and the operators of the
-- language: Node is a parse tree, and a call that ends is a value and the state behind it. Each
-- call of print_expr and each turn of a loop takes a unit of fuel, and `none` is the end of it. Of
-- the built-in functions only those on strings of bits are part of it (Bits), and the calls of LPC
-- functions are not.
pub mod Ops
pub mod State
pub mod Assign
pub mod Loops
pub mod Eval
mod After
mod Calm
mod Respect
mod Acyclic
mod Ends
mod Nesting
mod Bits
mod Laws
mod Tests
