-- ===== src/Lib.antt =====
-- Verification of the Python tools of Teide (tools/).
--
-- The tools are scripts that do not call each other; what they share is the repository they work
-- on. tools/gen_filelists.py writes the file lists that the build includes, once or as a server that
-- watches the projects. tools/run_tests.py runs the tests that ctest lists, in the order of their
-- dependencies. tools/update_references.py turns the outputs of the render tests into new references.
-- tools/benchmark.py builds and benchmarks commits, and compares two of them. tools/check_readme.py
-- runs the commands that README.md tells a reader to run. tools/update_packages.py moves vcpkg to
-- its newest commit, and tools/vkex generates the loader of Vulkan.
--
-- Base: texts are lists of code points, and numbers are native natural numbers. Base/Tests has the
-- Boolean tests and the conditional, Base/Lists Python's loops over lists, Base/Text the operations
-- of `str`, Base/Strip `strip` and `split`, Base/Int the integers, Base/Result
-- calls that may raise an exception.
--
-- RunTests: tools/run_tests.py. `find_test`, `get_dependencies` and `add_to_sequence` have the names
-- of the source's functions; `for_each` and `test_sequence` are its loops over names, which hand on
-- the global `sequence`; `run_sequence` and `main` are the loop that runs the tests and the script.
-- A result is a value, a KeyError, a RecursionError or an OSError of a process that cannot be started; the recursion of `add_to_sequence` is on the
-- depth of calls that the interpreter allows, which is a parameter. RunTests/Success shows which
-- depth is enough. Below it, Order, Distinct and Ranks are about the sequence, and Runs about the
-- exit codes. ctest, its JSON output and the processes are parameters.
--
-- GenFilelists: tools/gen_filelists.py. Paths has `is_source_file` and the functions of `os.path`,
-- Listing the walk over `src` and `include` (`add_source_files`) and the sorted list with its text,
-- Update the function `gen_filelist` on a disk with times of writing, Watch the handlers
-- `GitWatcher` and `FileWatcher` with the timer between them, as steps that may interleave, Server
-- the loop `watch_server` and the commands of `main`, Projects `find_project_dirs`. A directory is a
-- tree in the order in which the system lists it. What cmake-format leaves in a file is a parameter.
-- Threads and argparse are not modelled, and of sockets only what they give: a connection is the list of
-- its messages, up to an error, Ctrl-C or its end.
--
-- CheckReadme: tools/check_readme.py. `scan_line` is one round of the loop over the lines, with the
-- variables of the loop in the record `Scan`; `check_from` is the loop. The name of the system and the
-- exit code of each command are parameters. CheckReadme/Section describes the commands by what
-- stands above them in the file, without the variables of the loop.
--
-- UpdateReferences: tools/update_references.py. `hash_file` reads a file in pieces, on fuel: one
-- more round than the file has bytes, which is enough since each piece but the last has a byte.
-- `update_references` is the script; the directories that it is given may be missing. hashlib is a parameter, with its documented law that updates
-- in pieces amount to one update. Each entry of an output directory is a file, and a set of names is
-- given as a list, in the order in which the script iterates it.
--
-- Benchmark: tools/benchmark.py. Benchmark/Commit has `run_process`, `GitSwitcher`, `run_benchmark` and
-- `benchmark_commit` over a machine that runs processes and has a file system, both parameters;
-- exceptions are values. Benchmark/Summary has the rows and the table of the summary that
-- `benchmark_compare` writes; the floats are a parameter, with the tests and formats that it uses.
-- The rest of `benchmark_compare` and the parsing of arguments are not modelled.
--
-- UpdatePackages: tools/update_packages.py. `git` is a command in vcpkg or in the repository itself,
-- `modify_json` the change of vcpkg.json, `main` the script. What git does to the two repositories and to
-- vcpkg.json is a parameter.
--
-- Vkex: tools/vkex, the generator of the header that wraps Vulkan. tools/vkex/genvkex.py makes options
-- of its arguments and runs reg.py, a script of the Khronos registry, on vk.xml; that script selects
-- versions and extensions, marks what they require, and calls the methods of the generator in
-- tools/vkex/vkexgenerator.py, which extends the one of tools/vkex/generator.py. An exception is a value
-- (Base/Result, Vkex/Exceptions), without the text that was written before it. `diag` and `warn` messages
-- are left out, and `error` messages are the exception that they raise.
--
-- Vkex/Xml: the elements of xml.etree.ElementTree and their methods.
--
-- Vkex/Target: tools/vkex/genvkex.py, the splitting of the arguments, `makeREstring` and `genTarget`.
-- Target/Regex reads the patterns that are made, of plain and escaped characters, and tells what
-- `re.match` finds; other patterns are not read.
--
-- Vkex/Registry: tools/vkex/reg.py. Match has `apiNameMatch`, `matchAPIProfile` and, in Match/Strip,
-- `stripNonmatchingAPIs`, whose loop over a stack is recursion over the tree. Mark has the
-- functions `mark…Required`: the members `required` of the objects are functions of their keys, and an
-- element `<enums>` is its place in the registry, since groups and the registry share it. The recursion is
-- on the depth of calls, a parameter; a rank that falls along references bounds it. Select has the
-- part of `apiGen` that selects versions and extensions, with the compiled patterns as parameters;
-- Select/Target puts the options of genvkex.py into it. Passes has `requireFeatures` and
-- `removeFeatures`, with `requireDependsSatisfied`, as the first two passes call them; what else these
-- passes do concerns other members of the objects and is left out. The parsing of the registry
-- into dictionaries and the third pass, with `generateFeature`, are not modelled.
--
-- Vkex/Names, Vkex/Struct, Vkex/Sections and Vkex/File: tools/vkex/vkexgenerator.py. File has what
-- `beginFile` and `endFile` write. Names has the functions on
-- names and declarations, where `str.isalnum` and `str.lower` are parameters, and `genProtectString`.
-- Struct has `genType` and `genStruct`: the loop that classifies the members, Struct/Body the text of
-- a structure, Struct/Generate the whole method, with the counts and the set of types that may alias in
-- a record. Sections has `beginFeature`, `appendSection` and `endFeature`: the texts of a feature are
-- collected in sections and written at its end.
--
-- Vkex/Dependency: tools/vkex/parse_dependency.py. pyparsing is not modelled: an expression is its tree, and
-- `push_expr` is the stack that the parser leaves for it. The recursive evaluations of that stack are on the
-- depth of calls, for which the height of the tree is enough. The conventions object and the
-- classes of letters are parameters.
--
-- Not modelled: the rest of tools/vkex, which is the reading of the registry and its remaining passes, the
-- functions of generator.py that are not named above, and the conventions; tools/package_hash.py,
-- which downloads a file and calls vcpkg; and the renderer itself, which is C++ (src, include, tests).
pub mod Base
pub mod Benchmark
pub mod RunTests
pub mod GenFilelists
pub mod CheckReadme
pub mod UpdatePackages
pub mod Vkex
pub mod UpdateReferences
