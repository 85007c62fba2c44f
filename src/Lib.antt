-- ===== src/Lib.antt =====
-- Verification of llvm-mctoll, a tool that raises ARM and X86 binaries to LLVM IR.
--
-- The tool disassembles each function of a binary into a map of instructions (Raiser/MCInstRaiser).
-- For each module it collects the relocations of the text section, builds the machine function of
-- each function with its control-flow graph from the map (buildCFG), finds prototypes
-- (ARM/ARMFunctionPrototype, X86/X86FuncPrototypeDiscovery), and runs the passes of the target
-- (Raiser/ModuleRaiser). On ARM the passes eliminate the prolog and the epilog
-- (ARM/ARMEliminatePrologEpilog), make stack objects of the accesses of the frame
-- (ARM/ARMFrameBuilder) and split shifted operands off (ARM/ARMInstructionSplitting).
-- On X86 an analysis of the values of registers and memory (X86/X86ValueSetAnalysis), whose elements are strided intervals
-- (Raiser/ReducedIntervalCongruence), helps the raising, X86/X86RaisedValueTracker finds the
-- definitions that reach a block, and X86/X86RegisterUtils numbers the flags and the argument
-- registers. A filter (Raiser/FunctionFilter) says which functions are raised.
-- These parts are modelled here, each from its source, with LLVM's own types and queries as
-- parameters.
--
-- Base: what the parts share. Base/Tests has Boolean tests and the bind of Option, Base/Lists lists
-- measured by native numbers, Base/Int signed integers, Base/Word 64-bit words as bit patterns:
-- signed and unsigned values share the arithmetic, which wraps at 2 ^ 64, also where C++ leaves a
-- signed overflow undefined.
--
-- Arm: ARM/ARMInstructionSplitting.{h,cpp}, ARM/ARMFrameBuilder.cpp,
-- ARM/ARMEliminatePrologEpilog.cpp and ARM/ARMFunctionPrototype.cpp.
--   Arm/Opcode        the opcodes that the tables name
--   Arm/Target        LLVM's operand decoders and opcode flags, the parameter Target
--   Arm/Builder       machine instructions, operands, and the calls that build them
--   Arm/Machine       an abstract machine of registers, to say what instructions compute
--   Arm/Splitting     the tables (checkisShifter, isLDRSTRPre, getLoadStoreOpcode, getShiftOpcode),
--                     LoadStore (splitLDRSTR, splitLDRSTRPre and their forms with immediates), Shifter
--                     (splitCommon, splitS, splitC, splitCS), Pass (the pass); the theorems are in
--                     Shifts (what shifts and operations mean), Meaning, Outcome, Rewrites and Limits
--   Arm/Frame         Identify (the tables, getBitCount, identifyStackOp), Build (replaceNonSPBySP,
--                     searchStackObjects); the theorems are in Address, Slots, Elements and Built
--   Arm/Prolog        Conditions (the tests of an instruction), Spill (checkRegister and the slots of
--                     saved registers), Eliminate (the analyses, eliminateProlog, eliminateEpilog,
--                     eliminate); the theorems are in Frame, Patterns, Removed, Returns, Slots and
--                     Whole
--   Arm/Prototype     Discover (isUsedRegiser, isDefinedRegiser, genParameterTypes, genReturnType);
--                     the theorems are in Parameters
-- A virtual register is a number, counted up as MRI.createVirtualRegister does. `none` is an LLVM
-- assertion that fails, such as an operand that does not exist. Where the source keeps maps by
-- pointers to instructions, the model marks the instructions in place. The prolog pass finds the size
-- of the frame and the adjustment with which the frame builder computes offsets.
--
-- Ric: Raiser/ReducedIntervalCongruence.{h,cpp}. Ric/Defs has the object, containsValue, isSubsetOf
-- and the simple updates, Ric/Merge intersectRIC and unionRIC, which use a null pointer before they
-- merge anything: what stands behind that use is not modelled. A method that changes the object gives
-- the new one. Members and Bounds hold the theorems.
--
-- Vsa: X86/X86ValueSetAnalysis.{h,cpp} and Raiser/AlocType.{h,cpp}. Vsa/Aloc is AlocType,
-- Vsa/ValueSet the sets with crossValueSets and the loops over sets, Vsa/Analysis the map and the
-- methods. Vsa/Facts is a specification with neither sets nor map; Constants and Frame hold the
-- theorems. Sets are shared by pointers in the source and never changed in place, so that the map
-- holds the sets themselves.
--
-- Mc: Raiser/MCInstOrData.{h,cpp} and Raiser/MCInstRaiser.{h,cpp}. Mc/Cell is MCInstOrData, Mc/Raiser
-- the maps and the small methods, Mc/Cfg buildCFG. A machine function is new, so its blocks are
-- numbered from 0; a raised instruction is the pair of its index and its MCInst. Blocks, Defined,
-- Edges and Sizes hold the theorems, Offsets getMBBNumberOfMCInstOffset with its theorem. `none`
-- is behaviour that C++ leaves undefined or a failed assertion.
--
-- ModuleRaiser: Raiser/ModuleRaiser.{h,cpp}. Registry has the raisers of the targets, Relocs the
-- relocations and their searches, Functions the lookups of raised functions, Passes
-- runMachineFunctionPasses on a state that the called passes change. Search and Lookup hold theorems.
-- A pointer and a string are numbers, equal for equal ones.
--
-- X86: X86/X86RegisterUtils.{h,cpp}, X86/X86AdditionalInstrInfo.h, X86/X86FuncPrototypeDiscovery.cpp,
-- and parts of X86/X86RaisedValueTracker.{h,cpp} and X86/X86MachineInstructionRaiserUtils.cpp. A
-- register is a number, as in LLVM's table; those of the argument tables are named.
--   X86/Registers     X86RegisterUtils; Flags and Arguments hold the theorems
--   X86/InstrInfo     the kinds of instructions
--   X86/Types         IR types, getPhysRegType, getSSEInstructionType, find64BitSuperReg, and LLVM's
--                     table of registers, the parameter X86Target
--   X86/Instr         instructions and blocks as the passes read them
--   X86/Reaching      what the searches against the control flow share
--   X86/Returns       getReturnTypeFromMBB, and in Search getReachingReturnType and
--                     getFunctionReturnType; the theorems are in Ends, Rule, Paths, Total and Walk
--   X86/LiveIns       addRegisterToFunctionLiveInSet; the theorems are in Sorted, Antichain and Covered
--   X86/ArgTypes      getArgumentNumber, buildFuncArgTypeVector; the theorems are in Numbers, Alike,
--                     Found, Vector and Built
--   X86/Discover      the instructions, and in Blocks the walk over the blocks, of
--                     getRaisedFunctionPrototype; the theorems are in Union, Once and Kept
--   X86/Callee        getBranchTargetMBBNumber and getCalledFunction, over Mc, ModuleRaiser and Filter
--   X86/Tracker       PhysRegDefsInMBB and its operations, in Arguments getInBlockRegOrArgDefVal, in
--                     Search getGlobalReachingDefs; the theorems are in Arguments, Ends, Lists, Reached,
--                     Whole and Defs
--
-- Filter: Raiser/FunctionFilter.{h,cpp}. Filter/Lists has the lists of functions to raise and not to
-- raise with their operations, Types getPrimitiveDataType, Config the parameters of a prototype and
-- the lines of the configuration file. Counts holds the theorems on the lists, and Types its own. A
-- name in the lists is a number, equal for equal strings; a string that is parsed is a list of bytes.
--
-- Tests has the theorems at concrete inputs, and runs.
--
-- Every loop is a recursion on the list that the source walks, or on a number that the source counts
-- to, but for the two work lists of getReachingReturnType and getGlobalReachingDefs. These run on fuel,
-- the edges of the graph and the blocks on the list at the start, and it is proved to be enough: a
-- block that is visited adds no more than its predecessors, and is visited once.
--
-- Not modelled: printing and debug output, the registration of passes, RaiseMCInst and the two
-- methods that read its metadata back, the matching of LLVM's regular expressions in the filter, the
-- hashes of AlocType and of the sets (a container finds an element by operator== alone), the LLVM IR
-- that a pass makes beside its instructions (allocas, changed return types), the other ARM passes, the
-- selection of opcodes and the emission of LLVM IR, the rest of X86 instruction raising, what
-- getTargetFunctionAtPLTOffset reads from the PLT, and the object file dumpers.
pub mod Base
pub mod Arm
pub mod Ric
pub mod Vsa
pub mod X86
pub mod Mc
pub mod ModuleRaiser
pub mod Filter
pub mod Tests
