-- ===== src/Lib.antt =====
-- A model of parts of b1cc, a C compiler with its own assembler, linker and freestanding
-- runtime.
--
-- A source file goes through src/preprocessor.c, src/lexer.c, src/parser.c and src/ir.c, which
-- lowers it to the instructions of src/ir.h; src/ir_opt.c drops dead code; a back end prints
-- assembly, src/elf_writer.c assembles it to an object file, and src/linker.c links object
-- files. The front end keeps its symbols and macros in the hash map of src/common.c. Compiled
-- programs call the routines of runtime/.
--
-- Which file models what:
--   HashMap          src/common.c: hash_key and hashmap_*. HashMap/Values is the values in a slot
--                    array, HashMap/Slots says what dictionary a slot array holds, Probe and
--                    Loops follow the probe sequence, Write the single writes, Resize the growth,
--                    and Laws has what callers rely on.
--   Extended, Extended/Value
--                    src/common.c: f64_to_x87_extended
--   Link             src/linker.c: include_object and sym_addr over the hash map. Link/Resolve
--                    says what dictionary the hash map and the definitions hold, Winner which
--                    definition a name gets, Address what address a symbol gets.
--   Link/Parse       src/linker.c: parse_object. Link/Parse/Inverse is what a parse went through,
--                    Headers what it makes of a section header.
--   Link/Archives    src/linker.c: archive_member_at, resolve_pass and the loop around it.
--                    Link/Archives/Offers counts what the archives still offer, Steps is one
--                    member, Pass the symbols of an object, Objects a pass, Resolved the loop.
--   Link/Layout      src/linker.c: classify_section, elf_link_static's layout.
--                    Link/Layout/Aligned is the rounding, Sections, Heap and Laid follow the
--                    three loops, Apart is about two sections.
--   Link/Reloc       src/linker.c: elf_link_static's relocations. Link/Reloc/Field is the bytes
--                    of a field, Meaning what it means to the processor, Holds one relocation,
--                    Section all of a section.
--   Lexer            src/lexer.c: lex without macros. Lexer/Scan is what starts at a byte,
--                    Lexemes, Numbers, Words and Literals are the tokens of C, Rounds, Printed
--                    and Located follow the loop through a text, Total its end.
--   Preproc          src/preprocessor.c: character classes
--   Preproc/Expr     src/preprocessor.c: ep_*. Preproc/Expr/Denotes says what an expression
--                    denotes in C, Results that the operations give it.
--   Preproc/Tokens   src/preprocessor.c: get_expr_tokens
--   Preproc/Tokenize src/preprocessor.c: pp_tokenize
--   Preproc/Macro    src/preprocessor.c: pp_stringize
--   Preproc/Directive
--                    src/preprocessor.c: #define
--   Preproc/Source   src/preprocessor.c: join_continuation_lines, strip_comments
--   Intern           src/common.c: intern_string_n, intern_string
--   Arena            src/common.c: arena_*, align_up
--   Arrays           src/common.c and src/ast.c: the *_array_* functions
--   Text             src/common.c: sb_*, escape_asm_string
--   Ast              src/ast.h and src/ast.c: the operators and their names
--   Runtime/Memory   runtime/runtime.c: memcpy, memmove, memset, memcmp
--   Runtime/Compare, Search, Copy, Bounded
--                    runtime/runtime.c: the str* functions
--   Runtime/Numbers  runtime/runtime.c: write_num, atol, atoi
--   Runtime/Divide   runtime/divdi3.c
--   Ir, Ir/Optimize  src/ir.h and src/ir_opt.c
--   Elf/Buffer       src/elf_writer.c: bb_* and strtab_*; src/linker.c: rd16, rd32, rd64
--   Elf/Header       src/elf_writer.c: elf_write_shdr64
--   Elf/Registers    src/elf_writer.c: x64_regs, x64_reg_num, reg_optype, infer_gp_suffix
--   Elf/Memory       src/elf_writer.c: rex, modrm_*, sib_byte, enc_mem_idx
--   Elf/Rela         src/elf_writer.c: undefined symbols and .rela.text; src/linker.c: the
--                    entries that parse_object reads. Elf/Rela/Names is the search for a name,
--                    Entries the bytes.
--   Elf/Leb          src/elf_writer.c: write_uleb128, write_sleb128
-- Common holds the names that they share.
--
-- Machine integers are natural numbers with their wrap-around written out; a signed 64-bit
-- number is its bit pattern. Memory is a function from addresses to bytes where aliasing matters
-- (the copying routines), and a string is the list of its bytes elsewhere. A code that leaves
-- what C defines gives `undefined` or `none`.
--
-- Fuel: strcpy, strcat and strncat take a number of rounds, above the length of the strings;
-- write_num takes a round for each bit; LEB128 takes ten rounds of seven bits; lex takes a round
-- for each byte of its text; a pass of resolve_pass takes a round for each object and each entry
-- of the archives' tables, and the loop around it one for each entry and one more; the extended
-- format shifts a fraction of 52 bits at most 52 times; bb_reserve doubles at most as often as
-- it needs bytes; hashmap_put calls hashmap_resize, which calls hashmap_put, and depth two is
-- enough. The entries below say that the fuel suffices where a run could end for lack of it.
--
-- Not modelled: snprintf and sprintf, the inclusion of files, the stack of conditionals, the
-- expansion of macros, macro expansion inside the lexer, the parser and the lowering, the back
-- ends, the assembler of instruction texts, the linker's archive_load, its output file and
-- dynamic linking, the Mach-O writer and the driver. The allocators (malloc, calloc, realloc)
-- are taken to succeed.
pub mod Common
pub mod HashMap
pub mod Runtime
pub mod Ir
pub mod Elf
pub mod Extended
pub mod Link
pub mod Ast
pub mod Text
pub mod Arena
pub mod Arrays
pub mod Intern
pub mod Preproc
pub mod Lexer
