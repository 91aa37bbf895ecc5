-- ===== src/Elf/Stack.antt =====
-- What `setup_stack_args` leaves on the stack.
