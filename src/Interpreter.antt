-- ===== src/Interpreter.antt =====
-- The arithmetic of the IR interpreter, src/runtime/IrInterpreter.cpp.
mod Int
mod Arithmetic
mod Guards
mod Overflow
mod Values
mod Typing
mod Evaluate
mod Inversion
mod Operands
mod Soundness
mod Tests
